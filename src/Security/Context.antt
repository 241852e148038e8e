-- ===== src/Security/Context.antt =====
-- buster/security/context.py. The `context` dictionary of a call is read at the keys below only;
-- what else it holds is kept in `other`.
use aioperator.Prelude.{Bool, false, Option, none, some, [], ◌∷◌, String, str_eq, if◌then◌else◌}
use aioperator.Dict.{Dict, string_eq}

-- A value in a dictionary that describes a call; `V` is any other value.
pub data Field (V : Type 0) : Type 0 where
  text : String → Field V
  flag : Bool → Field V
  missing : Field V
  other : V → Field V

pub record Inputs (V : Type 0) : Type 0 where
  pub actor : Option String
  pub scope : Option String
  pub elevated : Bool
  pub source : Option String
  pub workspace : Option String
  pub agent : Option String
  pub rest : Dict String V

pub record SecurityContext (V : Type 0) : Type 0 where
  pub actor : String
  pub scope : Option String
  pub elevated : Bool
  pub source : String
  pub metadata : Inputs V

pub record ExecutionContext (V : Type 0) : Type 0 where
  pub action : String
  pub security : SecurityContext V
  pub workspace : Option String
  pub agent : Option String
  pub extra : Inputs V

-- `a or b` on texts: an empty text counts as missing.
abbrev pub or_text : Option String → String → String
or_text none b = b
or_text (some a) b = if str_eq a "" then b else a

abbrev pub or_option : Option String → Option String → Option String
or_option none b = b
or_option (some a) b = if str_eq a "" then b else some a

module _ {V : Type 0} where
  abbrev pub no_inputs : Inputs V
  no_inputs = record {
    actor = none;
    scope = none;
    elevated = false;
    source = none;
    workspace = none;
    agent = none;
    rest = [];
  }

  unfoldable pub from_inputs :
      (action : String) (scope : Option String) (actor source : String)
      → Option (Inputs V)
      → ExecutionContext V
  from_inputs action scope actor source context =
      let ctx : Inputs V = elim context [ none ↦ no_inputs | some c ↦ c ] in
      record {
        action = action;
        security = record {
          actor = or_text ctx.actor actor;
          scope = or_option scope ctx.scope;
          elevated = ctx.elevated;
          source = or_text ctx.source source;
          metadata = ctx;
        };
        workspace = ctx.workspace;
        agent = ctx.agent;
        extra = record ctx { scope = none; elevated = false };
      }

  abbrev text_or_missing : Option String → Field V
  text_or_missing none = missing
  text_or_missing (some s) = text s

  unfoldable pub as_dict : ExecutionContext V → Dict String (Field V)
  as_dict e =
      ("action", text e.action)
      ∷ ("actor", text e.security.actor)
      ∷ ("scope", text_or_missing e.security.scope)
      ∷ ("elevated", flag e.security.elevated)
      ∷ ("source", text e.security.source)
      ∷ ("workspace", text_or_missing e.workspace)
      ∷ ("agent", text_or_missing e.agent)
      ∷ []
