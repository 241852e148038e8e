-- ===== src/Intelligence/Attention/Queue.antt =====
-- buster/intelligence/attention.py: the order and the bound of the queue, and what it keeps.
use mathlib.Core.List.{Perm}
use mathlib.Core.Option.{none-ne-some, some-injective}
use mathlib.Core.Path.{subst}
use aioperator.Prelude.{
  ℕ, ◌≤◌, min, ◌≡◌, ◌≢◌, refl, ap, sym, ◌∙◌, Bool, true, false, Bool-cases, inl, inr, none, some,
  List, [], ◌∷◌, ◌++◌, String, length, if◌then◌else◌, take, drop, ltb, ltb_ℤ, ltb_ℤ-asymm,
  ltb_ℤ-trans, pos, negsuc, ◌+ℤ◌, ◌&&◌, ◌||◌, str_eq, arith, sort_by, IsSortedBy,
  sort_by-IsSortedBy, sort_by-perm, IsSortedBy-take, IsSortedBy-drop, Precedes, Precedes-take-drop,
  length-sort_by, length-take, length-drop, take-append-drop, take_all,
}
use aioperator.Prelude.Strings.{Text}
use aioperator.Intelligence.Rhythm.{Mode, same_mode, sleep, constrained}
use aioperator.Intelligence.Attention.{
  AttentionNote, Attention, before, score, is_seen, is_relevant, emit, enqueue, surface,
  note_signal, consume,
}

pub record IsValid (a : Attention) : Type 0 where
  pub sorted : IsSortedBy before a.queue
  pub bounded : length a.queue ≤ a.capacity

sorted_lem : (ns : List AttentionNote) → IsSortedBy before (sort_by before ns)
sorted_lem ns =
    sort_by-IsSortedBy before (λ a b c h k. ltb_ℤ-trans c.score b.score a.score k h)
      (λ a b h. ltb_ℤ-asymm b.score a.score h) ns

-- What `enqueue` did with the queue and the note: the queue and what it gave up hold the same notes
-- as before, the queue is as long as the capacity allows, and no note given up comes before one kept.
pub record KeepsBest (a : Attention) (note : AttentionNote) (kept : List AttentionNote)
    : Type 0 where
  pub given_up : List AttentionNote
  pub same_notes : Perm (kept ++ given_up) (a.queue ++ note ∷ [])
  pub length_is : length kept ≡ min a.capacity (length (a.queue ++ note ∷ []))
  pub best : Precedes before kept given_up

cut_lem :
    (n : ℕ) (xs : List AttentionNote) → (if ltb n (length xs) then take n xs else xs) ≡ take n xs
cut_lem n xs = elim (Bool-cases (ltb n (length xs))) [
  | inl h ↦ rw h refl
  | inr h ↦ rw h (sym (take_all n xs (ground arith)))
]

enqueue-KeepsBest : (a : Attention) (note : AttentionNote) → KeepsBest a note (enqueue note a).queue
unfolding enqueue
enqueue-KeepsBest a note =
    let notes = a.queue ++ note ∷ [] in
    rw (cut_lem a.capacity (sort_by before (a.queue ++ note ∷ []))) (record {
      given_up = drop a.capacity (sort_by before notes);
      same_notes = rw take-append-drop (sort_by-perm before notes);
      length_is =
          length-take a.capacity (sort_by before notes)
          ∙ ap (min a.capacity) (length-sort_by before notes);
      best = Precedes-take-drop before a.capacity (sort_by before notes) (sorted_lem notes);
    })

enqueue-IsValid : (a : Attention) (note : AttentionNote) → IsValid (enqueue note a)
unfolding enqueue
enqueue-IsValid a note =
    let notes = a.queue ++ note ∷ [] in
    rw (cut_lem a.capacity (sort_by before (a.queue ++ note ∷ []))) (record {
      sorted = IsSortedBy-take before a.capacity (sort_by before notes) (sorted_lem notes);
      bounded = omega (arith, length-take a.capacity (sort_by before notes));
    })

emit-queue : (a : Attention) (note : AttentionNote) → (emit note a).queue ≡ a.queue
unfolding emit
emit-queue a note = elim (Bool-cases a.listening) [ inl h ↦ rw h refl | inr h ↦ rw h refl ]

emit-IsValid : (a : Attention) (note : AttentionNote) → IsValid a → IsValid (emit note a)
unfolding emit
emit-IsValid a note v = elim (Bool-cases a.listening) [
  | inl h ↦ rw h (record { sorted = v.sorted; bounded = v.bounded })
  | inr h ↦ rw h (record { sorted = v.sorted; bounded = v.bounded })
]

surface-IsValid : (a : Attention) (note : AttentionNote) → IsValid a → IsValid (surface note a).1
unfolding surface
surface-IsValid a note v = elim (Bool-cases (ltb_ℤ note.score (pos 15))) [
  | inl h ↦ rw h v
  | inr h ↦ rw h (emit-IsValid (enqueue note a) note (enqueue-IsValid a note))
]

surface-KeepsBest :
    (a : Attention) (note n : AttentionNote)
    → (surface note a).0 ≡ some n
    → (n ≡ note) × KeepsBest a n (surface note a).1.queue
unfolding surface
surface-KeepsBest a note n h = elim (Bool-cases (ltb_ℤ note.score (pos 15))) [
  | inl q ↦ absurd (none-ne-some n (rw q at h))
  | inr q ↦
      let e = some-injective note n (rw q at h) in
      (
        sym e,
        subst (λ m. KeepsBest a m (surface note a).1.queue) e
            (rw q (
              subst (KeepsBest a note) (sym (emit-queue (enqueue note a) note))
                (enqueue-KeepsBest a note))),
      )
]

-- The weight of the level outweighs every deduction.
floor :
    (seen relevant routine asleep short : Bool)
    → ltb_ℤ
        (pos 40
          +ℤ (if seen then pos 0 else pos 20)
          +ℤ (if relevant then pos 10 else pos 0)
          +ℤ (if routine && false then negsuc 19 else pos 0)
          +ℤ (if asleep then negsuc 19 else if short then negsuc 9 else pos 0))
        (pos 15)
      ≡ false
floor s r true true c = ground arith
floor s r true false c = ground arith
floor s r false true c = ground arith
floor s r false false c = ground arith

module _ (lower : Text → Text) where
  -- A signal leaves the queue sorted, the highest score first, and no longer than its capacity.
  pub note_signal-IsValid :
      (now : ℕ) (kind level : String) (message : Text) (goals : List Text) (rhythm : Mode)
      (details : List (String × Text)) (a : Attention)
      → IsValid a
      → IsValid (note_signal lower now kind level message goals rhythm details a).1
  unfolding note_signal
  note_signal-IsValid now kind level message goals rhythm details a v =
      surface-IsValid a
        (record {
          kind = kind;
          level = level;
          message = message;
          score = score lower kind level message goals rhythm a;
          ts = now;
          details = details;
        })
        v

  -- When a signal becomes a note, the queue keeps as many of its notes and the new one as its capacity
  -- allows, and none of those it gives up has a higher score than one that it keeps.
  pub note_signal-KeepsBest :
      (now : ℕ) (kind level : String) (message : Text) (goals : List Text) (rhythm : Mode)
      (details : List (String × Text)) (a : Attention) (n : AttentionNote)
      → (note_signal lower now kind level message goals rhythm details a).0 ≡ some n
      → KeepsBest a n (note_signal lower now kind level message goals rhythm details a).1.queue
  unfolding note_signal
  note_signal-KeepsBest now kind level message goals rhythm details a n h =
      (surface-KeepsBest a
        (record {
          kind = kind;
          level = level;
          message = message;
          score = score lower kind level message goals rhythm a;
          ts = now;
          details = details;
        })
        n h).1

  score-critical :
      (kind : String) (message : Text) (goals : List Text) (rhythm : Mode) (a : Attention)
      → ltb_ℤ (score lower kind "critical" message goals rhythm a) (pos 15) ≡ false
  unfolding score is_relevant
  score-critical kind message goals rhythm a =
      floor (is_seen message a) (is_relevant lower message goals)
        (str_eq kind "host" || str_eq kind "battery") (same_mode rhythm sleep)
        (same_mode rhythm constrained)

  -- A critical signal always becomes a note, in every mode and however often its message was seen.
  pub note_signal-critical :
      (now : ℕ) (kind : String) (message : Text) (goals : List Text) (rhythm : Mode)
      (details : List (String × Text)) (a : Attention)
      → (note_signal lower now kind "critical" message goals rhythm details a).0 ≢ none
  unfolding note_signal surface
  note_signal-critical now kind message goals rhythm details a h = absurd (
      none-ne-some
        (record {
          kind = kind;
          level = "critical";
          message = message;
          score = score lower kind "critical" message goals rhythm a;
          ts = now;
          details = details;
        })
        (sym h ∙ rw (score-critical kind message goals rhythm a) refl))

-- The notes consumed are the first of the queue, and no note left comes before one of them; the queue
-- stays sorted and within its capacity.
pub consume-IsValid :
    (limit : ℕ) (a : Attention)
    → IsValid a
    → let (taken, b) = consume limit a in
      (taken ++ b.queue ≡ a.queue)
      × (length taken ≤ limit)
      × Precedes before taken b.queue
      × IsValid b
unfolding consume
consume-IsValid limit a v =
    let left : length (drop limit a.queue) ≤ a.capacity =
      omega (arith, length-drop limit a.queue, v.bounded) in
    (
      take-append-drop limit a.queue,
      omega (arith, length-take limit a.queue),
      Precedes-take-drop before limit a.queue v.sorted,
      record { sorted = IsSortedBy-drop before limit a.queue v.sorted; bounded = left },
    )
