-- ===== src/Runtime/Rpc.antt =====
-- buster/runtime.py: the request and reply files of the runtime. `K` is the kernel and `J` the JSON
-- values that are no texts, with their truth value and their print; `surface` is what the kernel does
-- for an operation: `none` for one that `rpc` does not know, and the text of an exception where it
-- raises one. A request file holds a JSON object, some other JSON value, or nothing that can be read;
-- `is_old` says that it is older than `REQUEST_TTL`. `can_write` says of a name that a reply file of it
-- can be written. Files that arrive during a round of the loop are left to the next.
pub mod Served
mod Tests
use aioperator.Prelude.{
  ℕ, Bool, true, false, Option, none, some, List, [], ◌∷◌, ◌++◌, String, str_eq, if◌then◌else◌,
  fstring,
}
use aioperator.Dict.{Dict, get, put, remove, string_eq}

pub data Json (J : Type 0) : Type 0 where
  text : String → Json J
  other : J → Json J

abbrev pub Message : Type 0 → Type 0
Message J = Dict String (Json J)

pub record Response (J : Type 0) : Type 0 where
  pub op : Option (Json J)
  pub ok : Bool
  pub value : Option (Json J)
  pub error : Option String

-- A response with its `reply_to`.
pub record Reply (J : Type 0) : Type 0 where
  pub response : Response J
  pub reply_to : Json J

pub data Content (J : Type 0) : Type 0 where
  unreadable : Content J
  no_object : Content J
  request : Message J → Content J

pub record InFile (J : Type 0) : Type 0 where
  pub name : String
  pub is_json : Bool
  pub content : Content J
  pub is_old : Bool

pub record Server (K J : Type 0) : Type 0 where
  pub kernel : K
  pub is_running : Bool
  pub inbox : List (InFile J)
  pub outbox : Dict String (Reply J)

-- What becomes of a file: it goes, it stays, or an exception leaves the loop and it stays.
pub data Turn (K J : Type 0) : Type 0 where
  removes : Server K J → Turn K J
  leaves : Server K J → Turn K J
  dies : Server K J → Turn K J

-- How a round over the files ends: whether an exception left it, and the files that stay.
pub record Ending (K J : Type 0) : Type 0 where
  pub has_died : Bool
  pub left : List (InFile J)
  pub server : Server K J

abbrev pub keep_file : {K J : Type 0} → InFile J → Ending K J → Ending K J
keep_file f e = record e { left = f ∷ e.left }

-- What an operation of the kernel does.
pub data Outcome (K J : Type 0) : Type 0 where
  answers : K → Bool → Option (Json J) → Option String → Outcome K J
  raises : K → String → Outcome K J

abbrev pub Surface : Type 0 → Type 0 → Type 0
Surface K J = String → Option (Message J → K → Outcome K J)

module _ {J : Type 0} where
  abbrev pub failure : Option (Json J) → String → Response J
  failure op error = record { op = op; ok = false; value = none; error = some error }

  -- The operation, where it is a text.
  abbrev pub asked : Option (Json J) → Option String
  asked (some (text op)) = some op
  asked other_op = none

  -- `request_id` as it stands in the name of a file, where it counts as true.
  abbrev pub given_id : (J → Bool) → (J → String) → Json J → Option String
  given_id truthy print (text id) = if str_eq id "" then none else some id
  given_id truthy print (other j) = if truthy j then some (print j) else none

  abbrev pub op_name : (J → String) → Option (Json J) → String
  op_name print none = "None"
  op_name print (some (text op)) = op
  op_name print (some (other j)) = print j

  -- `{"op": op, "id": request_id, **payload}`
  abbrev pub merge : Message J → Message J → Message J
  merge [] message = message
  merge ((k, v) ∷ payload) message = merge payload (put k v message)

  abbrev pub message_of : String → String → Message J → Message J
  message_of op request_id payload = merge payload (("op", text op) ∷ ("id", text request_id) ∷ [])

abbrev pub is_shutdown : Option String → Bool
is_shutdown none = false
is_shutdown (some op) = str_eq op "shutdown"

module _ {K J : Type 0} where
  abbrev pub concluded : Option (Json J) → Outcome K J → Server K J → Response J × Server K J
  concluded op (answers k ok value error) s =
      (record { op = op; ok = ok; value = value; error = error }, record s { kernel = k })
  concluded op (raises k error) s = (failure op error, record s { kernel = k })

  abbrev pub handler_of : Surface K J → Option String → Option (Message J → K → Outcome K J)
  handler_of surface none = none
  handler_of surface (some op) = surface op

  module _ (truthy : J → Bool) (print : J → String) (can_write : String → Bool)
      (surface : Surface K J) where
    abbrev pub served :
        Option (Message J → K → Outcome K J)
        → Option (Json J)
        → Message J
        → Server K J
        → Response J × Server K J
    served none op message s =
        (failure op (fstring ("unknown op '" ∷ op_name print op ∷ "'" ∷ [])), s)
    served (some handler) op message s = concluded op (handler message s.kernel) s

    unfoldable pub rpc : Message J → Server K J → Response J × Server K J
    rpc message s =
        let op = get "op" message in
        if is_shutdown (asked op)
        then (
          record { op = op; ok = true; value = some (text "stopping"); error = none },
          record s { is_running = false },
        )
        else served (handler_of surface (asked op)) op message s

    -- `_atomic_write` of the reply, where the request has an id; it may raise.
    abbrev pub send_as : Option String → Json J → Response J → Server K J → Turn K J
    send_as none id r s = removes s
    send_as (some name) id r s =
        if can_write name
        then removes
            (record s { outbox = put name (record { response = r; reply_to = id }) s.outbox })
        else dies s

    abbrev pub send_reply : Option (Json J) → Response J → Server K J → Turn K J
    send_reply none r s = removes s
    send_reply (some id) r s = send_as (given_id truthy print id) id r s

    -- `_dispatch` of an object, but for the removal of the request.
    unfoldable pub dispatch : Message J → Server K J → Turn K J
    unfolding rpc
    dispatch message s = let (r, after) = rpc message s in send_reply (get "id" message) r after

    -- A round of the loop of `_process_pending`; a value that is no object has no `get`.
    abbrev pub process_content : Content J → Bool → Server K J → Turn K J
    process_content unreadable is_old s = if is_old then removes s else leaves s
    process_content no_object is_old s = dies s
    process_content (request message) is_old s = dispatch message s

    unfoldable pub process_file : InFile J → Server K J → Turn K J
    process_file f s = if f.is_json then process_content f.content f.is_old s else leaves s

    abbrev pub go_on :
        (Server K J → Ending K J) → InFile J → List (InFile J) → Turn K J → Ending K J
    go_on next f fs (removes s) = next s
    go_on next f fs (leaves s) = keep_file f (next s)
    go_on next f fs (dies s) = record { has_died = true; left = f ∷ fs; server = s }

    unfoldable pub process_files : List (InFile J) → Server K J → Ending K J
    process_files [] s = record { has_died = false; left = []; server = s }
    process_files (f ∷ fs) s = go_on (process_files fs) f fs (process_file f s)

    -- `_process_pending`: whether an exception leaves it, which ends the serve loop, and the server.
    unfoldable pub process_pending : Server K J → Bool × Server K J
    unfolding process_files
    process_pending s =
        let e = process_files s.inbox s in (e.has_died, record e.server { inbox = e.left })

  -- The request file of a client.
  unfoldable pub send : String → String → Message J → Server K J → Server K J
  send op request_id payload s = record s {
    inbox =
        s.inbox
        ++ record {
          name = request_id;
          is_json = true;
          content = request (message_of op request_id payload);
          is_old = false;
        }
          ∷ [];
  }

  -- What the client finds when it looks for its reply; the reply file is removed.
  unfoldable pub poll : String → Server K J → Option (Reply J) × Server K J
  poll request_id s = (get request_id s.outbox, record s { outbox = remove request_id s.outbox })
