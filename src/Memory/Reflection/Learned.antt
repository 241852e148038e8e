-- ===== src/Memory/Reflection/Learned.antt =====
-- buster/memory/reflection.py: reflection forgets nothing, and remembers every failed run.
use mathlib.Core.Bool.{true≢false}
use aioperator.Prelude.{
  ℕ, ◌+◌, ◌≤◌, ◌≡◌, refl, ap, ◌∙◌, true, false, Bool-cases, Option-cases, inl, inr, Option, none,
  some, List, [], ◌∷◌, ◌++◌, String, str_eq, eq_iff, leb, length, length-map, arith, fstring,
  get_or,
}
use aioperator.Prelude.Strings.{first_chars}
use aioperator.Dict.{Dict, get, put, string_eq}
use aioperator.Dict.Laws.{get-put, get-put_self}
use aioperator.Memory.Knowledge.{KnowledgeEntry, KnowledgeMemory, accepts, learn, save}
use aioperator.Memory.Reflection.{
  Entry, Learning, is_status, given, learning, Hook, default_hooks, reflect_failures,
  reflect_targets, reflect_winning_patterns, reflect_agent_usage, learn_from, run_hooks,
  on_experience, each_experience, key_count, reflect, text_of,
}

module _ {V : Type 0} where
  -- The key is known with this confidence at least.
  pub record AtLeast (key : String) (c : ℕ) (m : KnowledgeMemory V) : Type 0 where
    pub entry : KnowledgeEntry V
    pub found : get key m.table ≡ some entry
    pub high : c ≤ entry.confidence

  accepts-le :
      (c : ℕ) (o : Option (KnowledgeEntry V)) (e : KnowledgeEntry V)
      → o ≡ some e
      → accepts c o ≡ true
      → e.confidence ≤ c
  accepts-le c o e h a = ground (arith, rw h at a)

  refused_high : (c : ℕ) (e : KnowledgeEntry V) → leb e.confidence c ≡ false → c ≤ e.confidence
  refused_high c e h = ground arith

  learn-AtLeast_self :
      (now : ℕ) (key : String) (v : V) (source : String) (c : ℕ) (m : KnowledgeMemory V)
      → AtLeast key c (learn now key v source c m)
  unfolding learn save
  learn-AtLeast_self now key v source c m = elim (Bool-cases (accepts c (get key m.table))) [
    | inl a ↦ rw a (record { entry = _; found = get-put_self key _ m.table; high = omega arith })
    | inr a ↦ elim (Option-cases (get key m.table)) [
      | inl n ↦ absurd (true≢false (rw n at a))
      | inr (e, f) ↦ rw a (record { entry = e; found = f; high = refused_high c e (rw f at a) })
    ]
  ]

  learn-AtLeast :
      (now : ℕ) (key : String) (v : V) (source : String) (c d : ℕ) (k : String)
      (m : KnowledgeMemory V)
      → AtLeast k d m
      → AtLeast k d (learn now key v source c m)
  unfolding learn save
  learn-AtLeast now key v source c d k m h =
      let new : KnowledgeEntry V = record {
        key = key;
        value = v;
        source = source;
        confidence = c;
        created = now;
        updated = now;
      } in
      elim (Bool-cases (accepts c (get key m.table))) [
        | inr a ↦ rw a (record { entry = h.entry; found = h.found; high = h.high })
        | inl a ↦ elim (Bool-cases (str_eq key k)) [
          | inr q ↦ rw a (record {
            entry = h.entry;
            found = get-put key k new m.table ∙ rw q h.found;
            high = h.high;
          })
          | inl q ↦ rw a (record {
            entry = new;
            found = get-put key k new m.table ∙ rw q refl;
            high = omega (
              arith,
              h.high,
              accepts-le c (get key m.table) h.entry
                  (ap (λ i. get i m.table) ((eq_iff key k).0 q) ∙ h.found) a,
            );
          })
        ]
      ]

  length-put-le :
      (k : String) (v : KnowledgeEntry V) (d : Dict String (KnowledgeEntry V))
      → length d ≤ length (put k v d)
  unfolding put
  length-put-le k v [] = omega arith
  length-put-le k v ((j, w) ∷ d) = ground (arith, length-put-le k v d)

  length-learn-le :
      (now : ℕ) (key : String) (v : V) (source : String) (c : ℕ) (m : KnowledgeMemory V)
      → length m.table ≤ length (learn now key v source c m).table
  unfolding learn save
  length-learn-le now key v source c m = elim (Bool-cases (accepts c (get key m.table))) [
    | inl h ↦ rw h (length-put-le key _ m.table)
    | inr h ↦ rw h (omega arith)
  ]

-- The same of a memory that may be missing.
abbrev pub Known : String → ℕ → Option (KnowledgeMemory String) → Type 0
Known k c none = ⊥
Known k c (some m) = AtLeast k c m

learn_from-AtLeast :
    (now : ℕ) (o : Option Learning) (k : String) (d : ℕ) (m : KnowledgeMemory String)
    → AtLeast k d m
    → AtLeast k d (learn_from now o m)
unfolding learn_from
learn_from-AtLeast now none k d m h = h
learn_from-AtLeast now (some l) k d m h =
    learn-AtLeast now l.key l.value l.source l.confidence d k m h

run_hooks-AtLeast :
    (now : ℕ) (hooks : List Hook) (e : Entry) (k : String) (d : ℕ) (m : KnowledgeMemory String)
    → AtLeast k d m
    → AtLeast k d (run_hooks now hooks e m)
unfolding run_hooks
run_hooks-AtLeast now [] e k d m h = h
run_hooks-AtLeast now (hook ∷ hooks) e k d m h =
    run_hooks-AtLeast now hooks e k d (learn_from now (hook e) m)
      (learn_from-AtLeast now (hook e) k d m h)

each_experience-AtLeast :
    (now : ℕ) (hooks : List Hook) (es : List Entry) (k : String) (d : ℕ)
    (m : KnowledgeMemory String)
    → AtLeast k d m
    → Known k d (each_experience now hooks es (some m))
unfolding each_experience on_experience
each_experience-AtLeast now hooks [] k d m h = h
each_experience-AtLeast now hooks (e ∷ es) k d m h =
    each_experience-AtLeast now hooks es k d (run_hooks now hooks e m)
      (run_hooks-AtLeast now hooks e k d m h)

reflect_failures_lem :
    (e : Entry) (t : String)
    → given (text_of e.target) ≡ some t
    → is_status "failed" e ≡ true
    → reflect_failures e
      ≡ some (
          learning
            (fstring ("avoid_repeat:" ∷ first_chars 60 t ∷ []))
            (get_or e.error "unknown failure")
            "reflection:failures"
            600)
unfolding reflect_failures
reflect_failures_lem e t h f = rw (h, reflect_failures, f) refl

remembers_now :
    (now : ℕ) (e : Entry) (t : String) (m : KnowledgeMemory String)
    → given (text_of e.target) ≡ some t
    → is_status "failed" e ≡ true
    → AtLeast
        (fstring ("avoid_repeat:" ∷ first_chars 60 t ∷ []))
        600
        (run_hooks now default_hooks e m)
unfolding run_hooks default_hooks reflect_agent_usage
remembers_now now e t m h f =
    let key = fstring ("avoid_repeat:" ∷ first_chars 60 t ∷ []) in
    run_hooks-AtLeast now (reflect_targets ∷ reflect_winning_patterns ∷ reflect_agent_usage ∷ []) e
      key 600 (learn_from now (reflect_failures e) m)
      (rw (reflect_failures_lem e t h f)
        (learn-AtLeast_self now key (get_or e.error "unknown failure") "reflection:failures" 600 m))

each_experience-remembers :
    (now : ℕ) (es fs : List Entry) (e : Entry) (t : String) (m : KnowledgeMemory String)
    → given (text_of e.target) ≡ some t
    → is_status "failed" e ≡ true
    → Known
        (fstring ("avoid_repeat:" ∷ first_chars 60 t ∷ []))
        600
        (each_experience now default_hooks (es ++ e ∷ fs) (some m))
unfolding each_experience on_experience
each_experience-remembers now [] fs e t m h f =
    each_experience-AtLeast now default_hooks fs (fstring ("avoid_repeat:" ∷ first_chars 60 t ∷ []))
      600 (run_hooks now default_hooks e m) (remembers_now now e t m h f)
each_experience-remembers now (d ∷ es) fs e t m h f =
    each_experience-remembers now es fs e t (run_hooks now default_hooks d m) h f

-- A failed run that has a target is remembered under its first sixty characters, with a confidence of
-- 0.6 at least, whatever was known before and whatever is reflected on after it.
pub reflect-AtLeast :
    (now : ℕ) (es fs : List Entry) (e : Entry) (t : String) (m : KnowledgeMemory String)
    → given (text_of e.target) ≡ some t
    → is_status "failed" e ≡ true
    → Known
        (fstring ("avoid_repeat:" ∷ first_chars 60 t ∷ []))
        600
        (reflect now default_hooks (es ++ e ∷ fs) (some m)).1
unfolding reflect
reflect-AtLeast now es fs e t m h f = each_experience-remembers now es fs e t m h f

learn_from-le :
    (now : ℕ) (o : Option Learning) (m : KnowledgeMemory String)
    → length m.table ≤ length (learn_from now o m).table
unfolding learn_from
learn_from-le now none m = omega arith
learn_from-le now (some l) m = length-learn-le now l.key l.value l.source l.confidence m

run_hooks-le :
    (now : ℕ) (hooks : List Hook) (e : Entry) (m : KnowledgeMemory String)
    → length m.table ≤ length (run_hooks now hooks e m).table
unfolding run_hooks
run_hooks-le now [] e m = omega arith
run_hooks-le now (hook ∷ hooks) e m =
    omega
      (arith, learn_from-le now (hook e) m, run_hooks-le now hooks e (learn_from now (hook e) m))

each_experience-le :
    (now : ℕ) (hooks : List Hook) (es : List Entry) (m : Option (KnowledgeMemory String))
    → key_count m ≤ key_count (each_experience now hooks es m)
unfolding each_experience on_experience
each_experience-le now hooks [] m = omega arith
each_experience-le now hooks (e ∷ es) none = each_experience-le now hooks es none
each_experience-le now hooks (e ∷ es) (some m) = omega (
  arith,
  length-map (λ p. p.0) m.table,
  length-map (λ p. p.0) (run_hooks now hooks e m).table,
  run_hooks-le now hooks e m,
  each_experience-le now hooks es (some (run_hooks now hooks e m)),
)

-- The number that a reflection returns is the growth of the knowledge: no key is lost, with any hooks
-- and also without a knowledge memory.
pub reflect-key_count :
    (now : ℕ) (hooks : List Hook) (es : List Entry) (k : Option (KnowledgeMemory String))
    → let (learned, after) = reflect now hooks es k in key_count k + learned ≡ key_count after
unfolding reflect
reflect-key_count now hooks es k = omega (arith, each_experience-le now hooks es k)
