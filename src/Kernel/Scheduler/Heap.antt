-- ===== src/Kernel/Scheduler/Heap.antt =====
-- The heap of `Scheduler` as the list of its entries, in the order of the tuples
-- `(run_at, priority, id)`.
use aioperator.Prelude.{
  ℕ, ◌≡◌, refl, Bool, true, false, ◌&&◌, ◌||◌, List, [], ◌∷◌, if◌then◌else◌, ltb, ◌==◌, ℤ, pos,
  negsuc, ltb_ℤ, eq_ℤ, All, arith, ◌⊎◌, inl, inr, Bool-cases,
}

pub record Entry : Type 0 where
  pub run_at : ℕ
  pub priority : ℤ
  pub id : ℕ

-- `<` on the tuples.
unfoldable pub less : Entry → Entry → Bool
less a b =
    ltb a.run_at b.run_at
    || (a.run_at == b.run_at
        && (ltb_ℤ a.priority b.priority || (eq_ℤ a.priority b.priority && ltb a.id b.id)))

unfoldable pub heappush : Entry → List Entry → List Entry
heappush e [] = e ∷ []
heappush e (x ∷ xs) = let rest = heappush e xs in if less x e then x ∷ rest else e ∷ x ∷ xs

-- No entry behind is less than one before it.
abbrev pub IsSorted : List Entry → Type 0
IsSorted [] = Unit
IsSorted (x ∷ xs) = All (λ y. less y x ≡ false) xs × IsSorted xs

priority_trans : (a b c : ℤ) → ltb_ℤ a b ≡ false → ltb_ℤ b c ≡ false → ltb_ℤ a c ≡ false
priority_trans (pos a) (pos b) (pos c) h k = ground arith
priority_trans (pos a) (pos b) (negsuc c) h k = ground arith
priority_trans _ _ _ h k = ground arith

priority_refl : (a : ℤ) → ltb_ℤ a a ≡ false
priority_refl (pos a) = ground arith
priority_refl (negsuc a) = ground arith

-- Of two priorities one is less, or they are equal.
priority_cases :
    (a b : ℤ)
    → ((ltb_ℤ a b ≡ true) × (ltb_ℤ b a ≡ false) × (eq_ℤ a b ≡ false) × (eq_ℤ b a ≡ false))
      ⊎ (((ltb_ℤ a b ≡ false) × (ltb_ℤ b a ≡ true) × (eq_ℤ a b ≡ false) × (eq_ℤ b a ≡ false))
          ⊎ ((a ≡ b) × (eq_ℤ a b ≡ true)))
priority_cases (pos a) (pos b) = ground arith
priority_cases (pos a) (negsuc b) = ground arith
priority_cases _ _ = ground arith

-- `less` is the strict part of a total order.
not-less_trans : (a b c : Entry) → less a b ≡ false → less b c ≡ false → less a c ≡ false
unfolding less
not-less_trans a b c h k = ground (
  arith,
  priority_cases a.priority b.priority,
  priority_cases b.priority c.priority,
  priority_cases a.priority c.priority,
  priority_trans a.priority b.priority c.priority,
)

less_asymm : (a b : Entry) → less a b ≡ true → less b a ≡ false
unfolding less
less_asymm a b h = ground (arith, priority_cases a.priority b.priority)

-- `e` is on the heap.
abbrev pub In : Entry → List Entry → Type 0
In e [] = ⊥
In e (x ∷ xs) = (e ≡ x) ⊎ In e xs

pub In-heappush_self : (e : Entry) (xs : List Entry) → In e (heappush e xs)
unfolding heappush
In-heappush_self e [] = inl refl
In-heappush_self e (x ∷ xs) = elim (Bool-cases (less x e)) [
  | inl h ↦ rw h (inr (In-heappush_self e xs))
  | inr h ↦ rw h (inl refl)
]

pub In-heappush : (e a : Entry) (xs : List Entry) → In a xs → In a (heappush e xs)
unfolding heappush
In-heappush e a [] m = elim m [ ]
In-heappush e a (x ∷ xs) m = elim (Bool-cases (less x e)) [
  | inl h ↦ rw h (elim m [ inl q ↦ inl q | inr q ↦ inr (In-heappush e a xs q) ])
  | inr h ↦ rw h (inr m)
]

All-not-less :
    (a b : Entry) (xs : List Entry)
    → less b a ≡ false
    → All (λ y. less y b ≡ false) xs
    → All (λ y. less y a ≡ false) xs
All-not-less a b [] h all = tt
All-not-less a b (x ∷ xs) h all = (not-less_trans x b a all.0 h, All-not-less a b xs h all.1)

All-heappush :
    (a e : Entry) (xs : List Entry)
    → less e a ≡ false
    → All (λ y. less y a ≡ false) xs
    → All (λ y. less y a ≡ false) (heappush e xs)
unfolding heappush
All-heappush a e [] h all = (h, tt)
All-heappush a e (x ∷ xs) h all = elim (Bool-cases (less x e)) [
  | inl q ↦ rw q (all.0, All-heappush a e xs h all.1)
  | inr q ↦ rw q (h, all)
]

pub IsSorted-heappush : (e : Entry) (xs : List Entry) → IsSorted xs → IsSorted (heappush e xs)
unfolding heappush
IsSorted-heappush e [] s = (tt, tt)
IsSorted-heappush e (x ∷ xs) s = elim (Bool-cases (less x e)) [
  | inl h ↦ rw h (All-heappush x e xs (less_asymm x e h) s.0, IsSorted-heappush e xs s.1)
  | inr h ↦ rw h ((h, All-not-less e x xs h s.0), s)
]

less_irrefl : (x : Entry) → less x x ≡ false
less_irrefl x = ground (arith, less_asymm x x)

-- On a sorted heap nothing precedes the entry at the top.
pub top-le : (x a : Entry) (xs : List Entry) → IsSorted (x ∷ xs) → In a (x ∷ xs) → less a x ≡ false
top-le x a xs s (inl e) = rw e (less_irrefl x)
top-le x a [] s (inr m) = elim m [ ]
top-le x a (y ∷ ys) s (inr (inl e)) = rw e s.0.0
top-le x a (y ∷ ys) s (inr (inr m)) = top-le x a ys (s.0.1, s.1.1) (inr m)
