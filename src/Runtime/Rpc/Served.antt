-- ===== src/Runtime/Rpc/Served.antt =====
-- buster/runtime.py: what a round of the loop leaves behind, and the reply that a client finds.
use mathlib.Core.Bool.{true≢false}
use mathlib.Core.Path.{subst}
use aioperator.Prelude.{
  ◌≡◌, refl, ap, sym, ◌∙◌, Bool, true, false, Bool-cases, inl, inr, Option, none, some, List, [],
  ◌∷◌, ◌++◌, String, str_eq, eq_iff, arith,
}
use aioperator.Dict.{get, put, string_eq}
use aioperator.Dict.Laws.{get-put, get-put_self}
use aioperator.Runtime.Rpc.{
  Json, text, Message, Response, Reply, Content, unreadable, no_object, request, InFile, Server,
  Outcome, answers, raises, Surface, given_id, asked, is_shutdown, handler_of, concluded, served,
  merge, message_of, rpc, send_as, send_reply, dispatch, process_content, process_file,
  process_files, Turn, removes, leaves, dies, Ending, go_on,
}

module _ {J : Type 0} where
  -- A reply whose `reply_to` names the file.
  abbrev pub IsFor : (J → Bool) → (J → String) → String → Option (Reply J) → Type 0
  IsFor truthy print name none = ⊥
  IsFor truthy print name (some r) = given_id truthy print r.reply_to ≡ some name

  -- The file of a client's request.
  abbrev pub request_file : (op name : String) → Message J → InFile J
  request_file op name payload = record {
    name = name;
    is_json = true;
    content = request (message_of op name payload);
    is_old = false;
  }

  merge-id :
      (payload m : Message J) → get "id" payload ≡ none → get "id" (merge payload m) ≡ get "id" m
  unfolding get
  merge-id [] m h = refl
  merge-id ((k, v) ∷ payload) m h = elim (Bool-cases (str_eq k "id")) [
    | inl b ↦ ground (arith, h, b)
    | inr b ↦
        merge-id payload (put k v m) (ground (arith, h, b)) ∙ ground (arith, get-put k "id" v m, b)
  ]

  message_of-id :
      (op id : String) (payload : Message J)
      → get "id" payload ≡ none
      → get "id" (message_of op id payload) ≡ some (text id)
  unfolding get
  message_of-id op id payload h = merge-id payload (("op", text op) ∷ ("id", text id) ∷ []) h

module _ {K J : Type 0} (truthy : J → Bool) (print : J → String) (can_write : String → Bool)
    (surface : Surface K J) where
  concluded-outbox :
      (op : Option (Json J)) (o : Outcome K J) (s : Server K J)
      → (concluded op o s).1.outbox ≡ s.outbox
  concluded-outbox op (answers k ok v e) s = refl
  concluded-outbox op (raises k e) s = refl

  served-outbox :
      (h : Option (Message J → K → Outcome K J)) (op : Option (Json J)) (m : Message J)
      (s : Server K J)
      → (served truthy print can_write surface h op m s).1.outbox ≡ s.outbox
  served-outbox none op m s = refl
  served-outbox (some h) op m s = concluded-outbox op (h m s.kernel) s

  rpc-outbox :
      (m : Message J) (s : Server K J)
      → (rpc truthy print can_write surface m s).1.outbox ≡ s.outbox
  unfolding rpc
  rpc-outbox m s = elim (Bool-cases (is_shutdown (asked (get "op" m)))) [
    | inl b ↦ rw b refl
    | inr b ↦ rw b (served-outbox (handler_of surface (asked (get "op" m))) (get "op" m) m s)
  ]

  abbrev server_of : Turn K J → Server K J
  server_of (removes s) = s
  server_of (leaves s) = s
  server_of (dies s) = s

  put-IsFor :
      (n : String) (id : Json J) (r : Response J) (s : Server K J) (name : String)
      → given_id truthy print id ≡ some n
      → IsFor truthy print name (get name s.outbox)
      → IsFor truthy print name (get name (put n (record { response = r; reply_to = id }) s.outbox))
  put-IsFor n id r s name g v = elim (Bool-cases (str_eq n name)) [
    | inl b ↦
        rw (get-put n name (record { response = r; reply_to = id }) s.outbox, b)
          (g ∙ ap some ((eq_iff n name).0 b))
    | inr b ↦ rw (get-put n name (record { response = r; reply_to = id }) s.outbox, b) v
  ]

  send_as-IsFor :
      (n : Option String) (id : Json J) (r : Response J) (s : Server K J) (name : String)
      → given_id truthy print id ≡ n
      → IsFor truthy print name (get name s.outbox)
      → IsFor truthy print name
          (get name (server_of (send_as truthy print can_write surface n id r s)).outbox)
  send_as-IsFor none id r s name g v = v
  send_as-IsFor (some n) id r s name g v = elim (Bool-cases (can_write n)) [
    | inl b ↦ rw b (put-IsFor n id r s name g v)
    | inr b ↦ rw b v
  ]

  send_reply-IsFor :
      (id : Option (Json J)) (r : Response J) (s : Server K J) (name : String)
      → IsFor truthy print name (get name s.outbox)
      → IsFor truthy print name
          (get name (server_of (send_reply truthy print can_write surface id r s)).outbox)
  send_reply-IsFor none r s name v = v
  send_reply-IsFor (some id) r s name v =
      send_as-IsFor (given_id truthy print id) id r s name refl v

  process_content-IsFor :
      (c : Content J) (is_old : Bool) (s : Server K J) (name : String)
      → IsFor truthy print name (get name s.outbox)
      → IsFor truthy print name
          (get name (server_of (process_content truthy print can_write surface c is_old s)).outbox)
  unfolding dispatch
  process_content-IsFor unreadable true s name v = v
  process_content-IsFor unreadable false s name v = v
  process_content-IsFor no_object is_old s name v = v
  process_content-IsFor (request m) is_old s name v =
      send_reply-IsFor (get "id" m) (rpc truthy print can_write surface m s).0
        (rpc truthy print can_write surface m s).1 name
        (subst (λ o. IsFor truthy print name (get name o)) (sym (rpc-outbox m s)) v)

  process_file-IsFor :
      (f : InFile J) (s : Server K J) (name : String)
      → IsFor truthy print name (get name s.outbox)
      → IsFor truthy print name
          (get name (server_of (process_file truthy print can_write surface f s)).outbox)
  unfolding process_file
  process_file-IsFor f s name v = elim (Bool-cases f.is_json) [
    | inl b ↦ rw b (process_content-IsFor f.content f.is_old s name v)
    | inr b ↦ rw b v
  ]

  go_on-IsFor :
      (next : Server K J → Ending K J) (f : InFile J) (fs : List (InFile J)) (t : Turn K J)
      (name : String)
      → ((s : Server K J)
          → IsFor truthy print name (get name s.outbox)
          → IsFor truthy print name (get name (next s).server.outbox))
      → IsFor truthy print name (get name (server_of t).outbox)
      → IsFor truthy print name
          (get name (go_on truthy print can_write surface next f fs t).server.outbox)
  go_on-IsFor next f fs (removes s) name h v = h s v
  go_on-IsFor next f fs (leaves s) name h v = h s v
  go_on-IsFor next f fs (dies s) name h v = v

  process_files-IsFor :
      (fs : List (InFile J)) (s : Server K J) (name : String)
      → IsFor truthy print name (get name s.outbox)
      → IsFor truthy print name
          (get name (process_files truthy print can_write surface fs s).server.outbox)
  unfolding process_files
  process_files-IsFor [] s name v = v
  process_files-IsFor (f ∷ fs) s name v =
      go_on-IsFor (process_files truthy print can_write surface fs) f fs
        (process_file truthy print can_write surface f s) name
        (λ s' v'. process_files-IsFor fs s' name v') (process_file-IsFor f s name v)

  -- The turn of a request with a text for its id.
  dispatch-own :
      (m : Message J) (s : Server K J) (name : String)
      → get "id" m ≡ some (text name)
      → str_eq name "" ≡ false
      → can_write name ≡ true
      → dispatch truthy print can_write surface m s
        ≡ removes (record (rpc truthy print can_write surface m s).1 {
          outbox =
              put name
                (record {
                  response = (rpc truthy print can_write surface m s).0;
                  reply_to = text name;
                })
                (rpc truthy print can_write surface m s).1.outbox;
        })
  unfolding dispatch
  dispatch-own m s name e h w = rw (e, h, w) refl

  answered_own :
      (after : List (InFile J)) (s : Server K J) (op name : String) (payload : Message J)
      → get "id" payload ≡ none
      → str_eq name "" ≡ false
      → can_write name ≡ true
      → IsFor truthy print name (
          get name
            (process_files truthy print can_write surface
              (request_file op name payload ∷ after)
              s).server.outbox)
  unfolding process_files process_file
  answered_own after s op name payload e h w =
      let m = message_of op name payload in
      let out = rpc truthy print can_write surface m s in
      let reply : Reply J = record { response = out.0; reply_to = text name } in
      rw (dispatch-own m s name (message_of-id op name payload e) h w) (
        process_files-IsFor after (record out.1 { outbox = put name reply out.1.outbox }) name
          (rw (get-put_self name reply out.1.outbox) (rw h refl)))

  go_on-replies :
      (short long : Server K J → Ending K J) (f : InFile J) (fs gs : List (InFile J)) (t : Turn K J)
      (name : String)
      → ((s : Server K J)
          → (short s).has_died ≡ false
          → IsFor truthy print name (get name (long s).server.outbox))
      → (go_on truthy print can_write surface short f fs t).has_died ≡ false
      → IsFor truthy print name
          (get name (go_on truthy print can_write surface long f gs t).server.outbox)
  go_on-replies short long f fs gs (removes s) name h d = h s d
  go_on-replies short long f fs gs (leaves s) name h d = h s d
  go_on-replies short long f fs gs (dies s) name h d = absurd (true≢false d)

  -- A request whose payload has no `id` of its own is answered in the round of the loop that meets its
  -- file, whatever the operation does and whatever files the round takes behind it: the file that the
  -- client waits for then holds a reply that gives the id of this request as its `reply_to`. The conditions are that the reply file can be
  -- written, and that no file before it ends the round by an exception, as one does that holds a JSON
  -- value which is no object, or whose reply cannot be written.
  pub process_files-replies :
      (before after : List (InFile J)) (s : Server K J) (op name : String) (payload : Message J)
      → get "id" payload ≡ none
      → str_eq name "" ≡ false
      → can_write name ≡ true
      → (process_files truthy print can_write surface before s).has_died ≡ false
      → IsFor truthy print name (
          get name
            (process_files truthy print can_write surface
              (before ++ request_file op name payload ∷ after)
              s).server.outbox)
  unfolding process_files
  process_files-replies [] after s op name payload e h w d =
      answered_own after s op name payload e h w
  process_files-replies (f ∷ before) after s op name payload e h w d =
      go_on-replies (process_files truthy print can_write surface before)
        (process_files truthy print can_write surface
          (before ++ request_file op name payload ∷ after))
        f before (before ++ request_file op name payload ∷ after)
        (process_file truthy print can_write surface f s) name
        (λ s' d'. process_files-replies before after s' op name payload e h w d') d
