-- ===== src/Memory/Reflection.antt =====
-- buster/memory/reflection.py: what is learned from experiences. The values that are learned are texts;
-- keys and values are put together as the code's f-strings do, `now` is the time of the call, and
-- confidences are in thousandths.
pub mod Learned
mod Tests
use aioperator.Prelude.{
  ℕ, ◌-◌, Bool, true, false, not, ◌&&◌, Option, none, some, List, [], ◌∷◌, ◌++◌, String, str_eq,
  if◌then◌else◌, take, length, get_or, codes, ℤ, pos, fstring,
}
use aioperator.Prelude.Strings.{Text, is_empty, first_chars}
use aioperator.Dict.{Dict, get, put, keys, string_eq}
use aioperator.Memory.Knowledge.{KnowledgeMemory, learn}

-- The value under a key: none, JSON's null, or a text.
pub data Value : Type 0 where
  missing : Value
  null : Value
  text : String → Value

-- What `entry.get` gives of it where that is a text.
abbrev pub text_of : Value → Option String
text_of missing = none
text_of null = none
text_of (text s) = some s

-- The keys that the hooks read of an entry; a missing one is `none`. A status and an error that are there
-- are texts.
pub record Entry : Type 0 where
  pub status : Option String
  pub target : Value
  pub error : Option String
  pub agent : Option String

-- What a hook returns.
pub record Learning : Type 0 where
  pub key : String
  pub value : String
  pub source : String
  pub confidence : ℕ

-- `entry.get("status") == s`
abbrev pub is_status : String → Entry → Bool
is_status s e = elim e.status [ none ↦ false | some t ↦ str_eq t s ]

-- A key as a condition: its text, where that is not empty.
abbrev pub given : Option String → Option String
given none = none
given (some s) = if str_eq s "" then none else some s

abbrev pub learning : String → String → String → ℕ → Learning
learning key value source confidence = record {
  key = key;
  value = value;
  source = source;
  confidence = confidence;
}

unfoldable pub reflect_failures : Entry → Option Learning
reflect_failures e = elim (given (text_of e.target)) [
  | none ↦ none
  | some t ↦
      if is_status "failed" e
      then some (
          learning (fstring ("avoid_repeat:" ∷ first_chars 60 t ∷ []))
            (get_or e.error "unknown failure") "reflection:failures" 600)
      else none
]

unfoldable pub reflect_targets : Entry → Option Learning
reflect_targets e = elim (given (text_of e.target)) [
  | none ↦ none
  | some t ↦ some (
      learning (fstring ("goal_seen:" ∷ first_chars 60 t ∷ [])) (get_or e.status "unknown")
        "reflection:targets" 300)
]

unfoldable pub reflect_winning_patterns : Entry → Option Learning
reflect_winning_patterns e = elim (given (text_of e.target)) [
  | none ↦ none
  | some t ↦
      if is_status "done" e
      then some
          (learning (fstring ("pattern:" ∷ first_chars 60 t ∷ [])) "done" "reflection:patterns" 600)
      else none
]

-- `entry.get("target", "")[:80]`, `none` where it raises, since null has no slice.
abbrev pub first_of : Value → Option String
first_of missing = some ""
first_of null = none
first_of (text s) = some (first_chars 80 s)

abbrev pub agent_learning : String → Option String → Option Learning
agent_learning a none = none
agent_learning a (some v) =
    some (learning (fstring ("agent_working:" ∷ a ∷ [])) v "reflection:agents" 400)

unfoldable pub reflect_agent_usage : Entry → Option Learning
reflect_agent_usage e = elim (given e.agent) [
  | none ↦ none
  | some a ↦ if is_status "done" e then agent_learning a (first_of e.target) else none
]

-- A hook may raise an exception, which `on_experience` passes over: `none` as no learning does.
abbrev pub Hook : Type 0
Hook = Entry → Option Learning

-- The hooks of `__post_init__`.
abbrev pub default_hooks : List Hook
unfolding reflect_failures reflect_targets reflect_winning_patterns reflect_agent_usage
default_hooks =
    reflect_failures ∷ reflect_targets ∷ reflect_winning_patterns ∷ reflect_agent_usage ∷ []

unfoldable pub learn_from : ℕ → Option Learning → KnowledgeMemory String → KnowledgeMemory String
unfolding learn
learn_from now none k = k
learn_from now (some l) k = learn now l.key l.value l.source l.confidence k

-- The loop of `on_experience`.
unfoldable pub run_hooks : ℕ → List Hook → Entry → KnowledgeMemory String → KnowledgeMemory String
unfolding learn_from
run_hooks now [] e k = k
run_hooks now (hook ∷ hooks) e k = run_hooks now hooks e (learn_from now (hook e) k)

unfoldable pub on_experience :
    ℕ → List Hook → Entry → Option (KnowledgeMemory String) → Option (KnowledgeMemory String)
unfolding run_hooks
on_experience now hooks e none = none
on_experience now hooks e (some k) = some (run_hooks now hooks e k)

unfoldable pub each_experience :
    ℕ → List Hook → List Entry → Option (KnowledgeMemory String) → Option (KnowledgeMemory String)
unfolding on_experience
each_experience now hooks [] k = k
each_experience now hooks (e ∷ es) k = each_experience now hooks es (on_experience now hooks e k)

abbrev pub key_count : Option (KnowledgeMemory String) → ℕ
key_count none = 0
key_count (some k) = length (keys k.table)

-- The number of new keys, and the memory behind.
unfoldable pub reflect :
    ℕ
    → List Hook
    → List Entry
    → Option (KnowledgeMemory String)
    → ℕ × Option (KnowledgeMemory String)
unfolding each_experience
reflect now hooks es k =
    let after = each_experience now hooks es k in (key_count after - key_count k, after)
