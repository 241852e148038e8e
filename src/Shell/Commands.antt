-- ===== src/Shell/Commands.antt =====
-- buster/shell/registry.py and buster/shell/results.py: the registry of the shell's commands and the
-- results that they return. `S` is the state of the shell, `D` the type of the data of a result; a
-- handler answers a result and the new state, or the text of an exception.
mod Tests
use aioperator.Prelude.{
  ℕ, Bool, true, false, ◌||◌, Bool-cases, Option-cases, inl, inr, Option, none, some, is_some, List,
  [], ◌∷◌, String, str_eq, if◌then◌else◌, get_or, ◌≡◌, ◌≢◌, refl, ap, sym, ◌∙◌, sort_by, fstring,
  arith, ◌⊎◌,
}
use aioperator.Dict.{Dict, get, put, has, keys, string_eq}
use aioperator.Dict.Laws.{get-put, get-put_self}

pub record StructuredResult (D : Type 0) : Type 0 where
  pub ok : Bool
  pub command : String
  pub value : Option D
  pub error : Option String

module _ {D : Type 0} where
  abbrev pub success : String → Option D → StructuredResult D
  success command value = record { ok = true; command = command; value = value; error = none }

  abbrev pub failure : String → String → StructuredResult D
  failure command error = record { ok = false; command = command; value = none; error = some error }

-- What a handler does: it raises an exception of this text, or returns a result.
pub data Outcome (S D : Type 0) : Type 0 where
  raises : String → S → Outcome S D
  returns : StructuredResult D → S → Outcome S D

pub record CommandSpec (S D : Type 0) : Type 0 where
  pub name : String
  pub handler : S → List String → Outcome S D
  pub help : String

pub record CommandRegistry (S D : Type 0) : Type 0 where
  pub commands : Dict String (CommandSpec S D)
  pub aliases : Dict String String

module _ {S D : Type 0} where
  unfoldable pub register :
      String → (S → List String → Outcome S D) → String → CommandRegistry S D → CommandRegistry S D
  register name handler help r = record r {
    commands = put name (record { name = name; handler = handler; help = help }) r.commands;
  }

  unfoldable pub alias : String → String → CommandRegistry S D → CommandRegistry S D
  alias name target r = record r { aliases = put name target r.aliases }

  unfoldable pub has_command : String → CommandRegistry S D → Bool
  has_command name r = has name r.commands || has name r.aliases

  unfoldable pub resolve : String → CommandRegistry S D → Option (CommandSpec S D)
  resolve name r = get (get_or (get name r.aliases) name) r.commands

  unfoldable pub names : (String → String → Bool) → CommandRegistry S D → List String
  names less r = sort_by less (keys r.commands)

  -- The result of a handler; an exception is a failure with its text.
  abbrev pub settled : String → Outcome S D → StructuredResult D × S
  settled name (raises text s) = (failure name text, s)
  settled name (returns r s) = (r, s)

  abbrev pub run_spec : Option (CommandSpec S D) → String → List String → S → StructuredResult D × S
  run_spec none name args s = (failure name (fstring ("unknown command '" ∷ name ∷ "'" ∷ [])), s)
  run_spec (some spec) name args s = settled name (spec.handler s args)

  unfoldable pub dispatch : CommandRegistry S D → String → List String → S → StructuredResult D × S
  unfolding resolve
  dispatch r name args s = run_spec (resolve name r) name args s

  resolve-register :
      (name n : String) (handler : S → List String → Outcome S D) (help : String)
      (r : CommandRegistry S D)
      → resolve n (register name handler help r) ≡ (
          if str_eq name (get_or (get n r.aliases) n)
          then some (record { name = name; handler = handler; help = help })
          else resolve n r)
  unfolding resolve register
  resolve-register name n handler help r =
      get-put name (get_or (get n r.aliases) n)
        (record { name = name; handler = handler; help = help }) r.commands

  resolve-alias :
      (name target n : String) (r : CommandRegistry S D)
      → resolve n (alias name target r)
        ≡ (if str_eq name n then get target r.commands else resolve n r)
  unfolding resolve alias
  resolve-alias name target n r = elim (Bool-cases (str_eq name n)) [
    | inl q ↦ rw (get-put name n target r.aliases, q) refl
    | inr q ↦ rw (get-put name n target r.aliases, q) refl
  ]

  run_spec_if :
      (b : Bool) (o p : Option (CommandSpec S D)) (n : String) (args : List String) (s : S)
      → run_spec (if b then o else p) n args s
        ≡ (if b then run_spec o n args s else run_spec p n args s)
  run_spec_if true o p n args s = refl
  run_spec_if false o p n args s = refl

  -- With an alias, its name runs the handler registered under the target, also in place of a command
  -- of that name, and every other line is answered as before; a line whose handler raises, or that
  -- names no command, ends in a failure that carries the name that was typed.
  pub dispatch-alias :
      (name target n : String) (args : List String) (s : S) (r : CommandRegistry S D)
      → dispatch (alias name target r) n args s
        ≡ (if str_eq name n then run_spec (get target r.commands) n args s else dispatch r n args s)
  unfolding dispatch
  dispatch-alias name target n args s r =
      ap (λ o. run_spec o n args s) (resolve-alias name target n r)
      ∙ run_spec_if (str_eq name n) (get target r.commands) (resolve n r) n args s

  -- A registration gives its name a new handler and changes no other line; an alias of that name still
  -- goes to its target.
  pub dispatch-register :
      (name n : String) (handler : S → List String → Outcome S D) (help : String)
      (args : List String) (s : S) (r : CommandRegistry S D)
      → dispatch (register name handler help r) n args s ≡ (
          if str_eq name (get_or (get n r.aliases) n)
          then settled n (handler s args)
          else dispatch r n args s)
  unfolding dispatch
  dispatch-register name n handler help args s r =
      ap (λ o. run_spec o n args s) (resolve-register name n handler help r)
      ∙ run_spec_if (str_eq name (get_or (get n r.aliases) n))
          (some (record { name = name; handler = handler; help = help })) (resolve n r) n args s
