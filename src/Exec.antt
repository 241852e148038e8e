-- ===== src/Exec.antt =====
-- buster/exec.py: the closed set of operations that the privileged bridge can ask for. The daemon is
-- outside: `Daemon` holds what its calls answer. A run is the exit code, the documents on stdout, the
-- calls that reached the installation or the daemon, in order, and the exception that left `exec_main`.
pub mod Views
pub mod Entry
pub mod Grammar
pub mod Documents
mod Tests
use aioperator.Prelude.{
  ℕ, Bool, true, false, not, ◌&&◌, ◌||◌, Option, none, some, List, [], ◌∷◌, ◌++◌, String, str_eq,
  if◌then◌else◌, any, first, length, leb, fstring, codes, get_or, keep,
}
use aioperator.Dict.{Dict, put, string_eq}

-- What a call into the runtime gives: a value, a `RuntimeOfflineError` or `RuntimeRpcError`, or
-- another exception, with its type's name and its message.
pub data Outcome (A : Type 0) : Type 0 where
  answers : A → Outcome A
  runtime_error exception : String → String → Outcome A

pub record ServiceRow (J : Type 0) : Type 0 where
  pub name : String
  pub detail : J

pub record Check (J : Type 0) : Type 0 where
  pub passed : Bool
  pub detail : J

pub data Value (J : Type 0) : Type 0 where
  text : String → Value J
  flag : Bool → Value J
  null : Value J
  number : ℕ → Value J
  names : List String → Value J
  service : ServiceRow J → Value J
  services : List (ServiceRow J) → Value J
  checks : List (Check J) → Value J
  json : J → Value J

abbrev pub Document : Type 0 → Type 0
Document J = Dict String (Value J)

pub record Response (J : Type 0) : Type 0 where
  pub ok : Bool
  pub error : Option String
  pub body : Document J

pub record Status (J : Type 0) : Type 0 where
  pub state : Option String
  pub detail : J

pub record Daemon (J : Type 0) : Type 0 where
  pub version : String
  pub install : Outcome String
  pub is_online : Outcome Bool
  pub heartbeat : Option J
  pub status : Outcome (Status J)
  pub services : Outcome (List (ServiceRow J))
  pub caps : Outcome (Document J)
  pub health : Outcome (List (Check J))
  pub intel_view : String → Outcome J
  pub service_op : String → String → Outcome (Response J)

pub data Touch : Type 0 where
  resolves_install connects asks_status asks_services asks_caps runs_doctors : Touch
  asks_view : String → Touch
  asks_op : String → String → Touch

pub record Run (J : Type 0) : Type 0 where
  pub exit_code : ℕ
  pub documents : List (Document J)
  pub touched : List Touch
  pub escaped : Option String

abbrev pub read_verbs : List String
read_verbs = "status" ∷ "services" ∷ "capabilities" ∷ "health" ∷ "ping" ∷ []

abbrev pub service_verbs : List String
service_verbs = "service-start" ∷ "service-restart" ∷ "service-status" ∷ []

abbrev pub read_views : List String
read_views = "goals" ∷ "memory" ∷ "attention" ∷ "activity" ∷ "device" ∷ "settings" ∷ "jobs" ∷ []

abbrev pub offline : String
offline = "runtime offline; run 'buster start' first"

abbrev pub is_in : String → List String → Bool
is_in v vs = any vs (λ w. str_eq v w)

abbrev pub is_alnum : ℕ → Bool
is_alnum c = (leb b'A' c && leb c b'Z') || (leb b'a' c && leb c b'z') || (leb b'0' c && leb c b'9')

abbrev pub is_name_char : ℕ → Bool
is_name_char c =
    is_alnum c
    || (leb b'_' c && leb c b'_')
    || (leb b'.' c && leb c b'.')
    || (leb b'-' c && leb c b'-')

-- `SERVICE_NAME.fullmatch`
unfoldable pub full_match : List ℕ → Bool
full_match [] = false
full_match (c ∷ s) = is_alnum c && not (any s (λ d. not (is_name_char d)))

unfoldable pub is_valid_service_name : String → Bool
unfolding full_match
is_valid_service_name name =
    let s = codes name in leb 1 (length s) && leb (length s) 64 && full_match s

-- `f"{type(exc).__name__}: {exc}"`
abbrev pub exc_text : String → String → String
exc_text type message = fstring (type ∷ ": " ∷ message ∷ [])

module _ {J : Type 0} where
  abbrev pub usage : Run J
  usage = record { exit_code = 2; documents = []; touched = []; escaped = none }

  abbrev pub emits : ℕ → Document J → List Touch → Run J
  emits code doc touched = record {
    exit_code = code;
    documents = doc ∷ [];
    touched = touched;
    escaped = none;
  }

  -- `_error`
  abbrev pub fails : String → String → List Touch → Run J
  fails verb message touched =
      emits 1 (("verb", text verb) ∷ ("ok", flag false) ∷ ("error", text message) ∷ []) touched

  abbrev pub escapes : String → String → List Touch → Run J
  escapes type message touched = record {
    exit_code = 1;
    documents = [];
    touched = touched;
    escaped = some (exc_text type message);
  }
