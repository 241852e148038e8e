-- ===== src/Runtime/Lock/Alone.antt =====
-- buster/runtime.py: what `acquire` does for a process that no other disturbs, and the processes that
-- hold the lock when each call of `acquire` and `release` is made as a whole.
use mathlib.Core.Bool.{true≢false}
use mathlib.Core.Path.{subst}
use aioperator.Prelude.{
  ℕ, zero, suc, ◌≡◌, ◌⊎◌, refl, ap, sym, ◌∙◌, Bool, true, false, Bool-cases, inl, inr, Option, none,
  some, List, [], ◌∷◌, if◌then◌else◌, ◌==◌, ==_iff, length, ◌≤◌, arith, All,
}
use aioperator.Runtime.Lock.{
  LockFile, Stage, holds, refused, begins, is_taken, step, acquire, release,
}

self : (p : ℕ) → (p == p) ≡ true
self p = (==_iff p p).1 refl

module _ (alive : ℕ → Bool) where
  -- The calls of one process.
  abbrev pub solo : ℕ → ℕ → Stage × Option LockFile → Stage × Option LockFile
  unfolding step
  solo zero p at = at
  solo (suc n) p at = solo n p (step alive p at.0 at.1)

  untaken : is_taken alive none ≡ false
  unfolding is_taken
  untaken = refl

  solo-taken :
      (p : ℕ) (f : LockFile)
      → is_taken alive (some f) ≡ true
      → solo 7 p (begins, some f) ≡ (refused, some f)
  unfolding solo step
  solo-taken p f h = rw h refl

  solo_free :
      (p : ℕ) (f : LockFile)
      → is_taken alive (some f) ≡ false
      → solo 7 p (begins, some f) ≡ (holds, some (record { maker = p; pid = some p }))
  unfolding solo step
  solo_free p f h = rw h (rw (self p) refl)

  solo-none : (p : ℕ) → solo 7 p (begins, none) ≡ (holds, some (record { maker = p; pid = some p }))
  unfolding solo step
  solo-none p = rw (self p) refl

  acquire-taken :
      (p : ℕ) (file : Option LockFile)
      → is_taken alive file ≡ true
      → acquire alive p file ≡ (false, file)
  unfolding acquire
  acquire-taken p file h = rw h refl

  acquire_free :
      (p : ℕ) (file : Option LockFile)
      → is_taken alive file ≡ false
      → acquire alive p file ≡ (true, some (record { maker = p; pid = some p }))
  unfolding acquire
  acquire_free p file h = rw h refl

  -- Seven calls of a process that is alone come to what `acquire` is as a whole: it is refused by a
  -- file that a live process wrote, and takes the lock in place of any other file.
  pub solo-acquire :
      (p : ℕ) (file : Option LockFile)
      → solo 7 p (begins, file)
        ≡ (if (acquire alive p file).0 then holds else refused, (acquire alive p file).1)
  solo-acquire p none = rw (acquire_free p none untaken) (solo-none p)
  solo-acquire p (some f) = elim (Bool-cases (is_taken alive (some f))) [
    | inl h ↦ rw (acquire-taken p (some f) h) (solo-taken p f h)
    | inr h ↦ rw (acquire_free p (some f) h) (solo_free p f h)
  ]

  acquire-cases :
      (p : ℕ) (file : Option LockFile)
      → ((acquire alive p file ≡ (false, file)) × (is_taken alive file ≡ true))
        ⊎ ((acquire alive p file ≡ (true, some (record { maker = p; pid = some p })))
            × (is_taken alive file ≡ false))
  acquire-cases p file = elim (Bool-cases (is_taken alive file)) [
    | inl h ↦ inl (acquire-taken p file h, h)
    | inr h ↦ inr (acquire_free p file h, h)
  ]

-- Runs in which each call of `acquire` and `release` is made as a whole, with the processes that live
-- and those that have the lock. A run starts with any file, of a process that lives or not, while none has
-- the lock; processes come and go, but for one that has the lock. `release` does not ask whose the file
-- is; in these runs it is called only by a process that has the lock, or while none has it, as when a
-- process releases a second time.
pub data Reach : (ℕ → Bool) → List ℕ → Option LockFile → Type 0 where
  starts : (alive : ℕ → Bool) (file : Option LockFile) → Reach alive [] file
  changes :
      {alive : ℕ → Bool} {hs : List ℕ} {file : Option LockFile} (alive' : ℕ → Bool)
      → Reach alive hs file
      → All (λ p. alive' p ≡ true) hs
      → Reach alive' hs file
  takes :
      {alive : ℕ → Bool} {hs : List ℕ} {file : Option LockFile} (p : ℕ)
      → Reach alive hs file
      → alive p ≡ true
      → (acquire alive p file).0 ≡ true
      → Reach alive (p ∷ hs) (acquire alive p file).1
  fails :
      {alive : ℕ → Bool} {hs : List ℕ} {file : Option LockFile} (p : ℕ)
      → Reach alive hs file
      → (acquire alive p file).0 ≡ false
      → Reach alive hs (acquire alive p file).1
  releases :
      {alive : ℕ → Bool} {hs : List ℕ} {file : Option LockFile} (p : ℕ)
      → Reach alive (p ∷ hs) file
      → Reach alive hs (release file)
  clears :
      {alive : ℕ → Bool} {file : Option LockFile}
      → Reach alive [] file
      → Reach alive [] (release file)

-- The file of a lock that is held is that of its holder, who lives and is the only one.
abbrev IsSingle : (ℕ → Bool) → List ℕ → Option LockFile → Type 0
IsSingle alive [] file = Unit
IsSingle alive (p ∷ hs) file =
    (hs ≡ []) × (file ≡ some (record { maker = p; pid = some p })) × (alive p ≡ true)

own-taken :
    (alive : ℕ → Bool) (p : ℕ)
    → is_taken alive (some (record { maker = p; pid = some p })) ≡ alive p
unfolding is_taken
own-taken alive p = refl

none_held :
    (alive : ℕ → Bool) (hs : List ℕ) (file : Option LockFile)
    → IsSingle alive hs file
    → is_taken alive file ≡ false
    → hs ≡ []
none_held alive [] file v h = refl
none_held alive (p ∷ hs) file v h =
    absurd (true≢false (sym v.2 ∙ sym (own-taken alive p) ∙ ap (is_taken alive) (sym v.1) ∙ h))

changed-IsSingle :
    (alive alive' : ℕ → Bool) (hs : List ℕ) (file : Option LockFile)
    → All (λ p. alive' p ≡ true) hs
    → IsSingle alive hs file
    → IsSingle alive' hs file
changed-IsSingle alive alive' [] file all v = tt
changed-IsSingle alive alive' (p ∷ hs) file all v = (v.0, v.1, all.0)

Reach-IsSingle :
    {alive : ℕ → Bool} {hs : List ℕ} {file : Option LockFile}
    → Reach alive hs file
    → IsSingle alive hs file
unfolding release
Reach-IsSingle (starts alive file) = tt
Reach-IsSingle (changes {alive} {hs} {file} alive' r all) =
    changed-IsSingle alive alive' hs file all (Reach-IsSingle r)
Reach-IsSingle (takes {alive} {hs} {file} p r a t) = elim (acquire-cases alive p file) [
  | inl (e, h) ↦ absurd (true≢false (sym t ∙ ap (λ x. x.0) e))
  | inr (e, h) ↦ rw e (none_held alive hs file (Reach-IsSingle r) h, refl, a)
]
Reach-IsSingle (fails {alive} {hs} {file} p r t) = elim (acquire-cases alive p file) [
  | inl (e, h) ↦ rw e (Reach-IsSingle r)
  | inr (e, h) ↦ absurd (true≢false (sym (ap (λ x. x.0) e) ∙ t))
]
Reach-IsSingle (releases {alive} {hs} p r) =
    subst (λ l. IsSingle alive l none) (sym (Reach-IsSingle r).0) tt
Reach-IsSingle (clears r) = tt

length-IsSingle :
    (alive : ℕ → Bool) (hs : List ℕ) (file : Option LockFile)
    → IsSingle alive hs file
    → length hs ≤ 1
length-IsSingle alive [] file v = omega arith
length-IsSingle alive (p ∷ hs) file v = omega (arith, ap length v.0)

-- At most one process has the lock, whatever file was there at first, on these conditions: no two calls
-- of `acquire` and `release` overlap, a process lives when it takes the lock and while it has it, and
-- while a process has the lock no other one calls `release`.
pub length-Reach :
    {alive : ℕ → Bool} {hs : List ℕ} {file : Option LockFile} → Reach alive hs file → length hs ≤ 1
length-Reach {alive} {hs} {file} r = length-IsSingle alive hs file (Reach-IsSingle r)
