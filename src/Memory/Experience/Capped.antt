-- ===== src/Memory/Experience/Capped.antt =====
-- buster/memory/experience.py: the file holds the last experiences, and the statistics agree with them.
use mathlib.Core.List.{append_assoc, append-nil, map-append, nil≢cons}
use mathlib.Core.Path.{subst}
use mathlib.Core.Option.{none-ne-some, some-injective}
use aioperator.Prelude.{
  ℕ, zero, suc, ◌+◌, ◌-◌, ◌≤◌, ◌<◌, ◌≡◌, refl, ap, sym, ◌∙◌, true, false, Bool-cases, Option-cases,
  inl, inr, Option, none, some, List, [], ◌∷◌, ◌++◌, map, String, str_eq, eq_iff, if◌then◌else◌,
  leb, ◌==◌, length, keep, latest, latest_short, length-latest, latest-append_latest, arith, drop,
  length-map,
}
use aioperator.Memory.Lines.{Line, row, junk, all_rows, all_rows-rows, lines_of, last_n_lem}
use aioperator.Memory.Experience.{
  Experience, ExperienceMemory, lines, trim, store, limited, recall, is_status, count, has_status,
  Stats, stats_of, summarise, stats,
}

lines-trim : (m : ExperienceMemory) → 0 < m.capacity → lines (trim m) ≡ latest m.capacity (lines m)
unfolding lines trim
lines-trim m h = elim (Bool-cases (leb (length (lines_of m.file)) m.capacity)) [
  | inl q ↦ rw q (sym (latest_short m.capacity (lines_of m.file) (ground arith)))
  | inr q ↦ rw q (last_n_lem m.capacity (lines_of m.file) h)
]

capacity-trim : (m : ExperienceMemory) → (trim m).capacity ≡ m.capacity
unfolding trim
capacity-trim m = elim (Bool-cases (leb (length (lines m)) m.capacity)) [
  | inl q ↦ rw q refl
  | inr q ↦ rw q refl
]

abbrev pub store_each : List Experience → ExperienceMemory → ExperienceMemory
store_each [] m = m
store_each (e ∷ es) m = store_each es (store e m)

lines-store_each :
    (es : List Experience) (m : ExperienceMemory)
    → 0 < m.capacity
    → length (lines m) ≤ m.capacity
    → lines (store_each es m) ≡ latest m.capacity (lines m ++ map row es)
unfolding store lines
lines-store_each [] m h v =
    sym (ap (latest m.capacity) (append-nil (lines m)) ∙ latest_short m.capacity (lines m) v)
lines-store_each (e ∷ es) m h v =
    let m' : ExperienceMemory = record m { file = some (lines m ++ row e ∷ []) } in
    let c : (trim m').capacity ≡ m.capacity = capacity-trim m' in
    let r : lines (trim m') ≡ latest m.capacity (lines m ++ row e ∷ []) = lines-trim m' h in
    lines-store_each es (trim m') (omega (arith, c, h))
      (omega (arith, c, ap length r, length-latest m.capacity (lines m ++ row e ∷ [])))
    ∙ ap (λ n. latest n (lines (trim m') ++ map row es)) c
    ∙ ap (λ l. latest m.capacity (l ++ map row es)) r
    ∙ latest-append_latest m.capacity (lines m ++ row e ∷ []) (map row es)
    ∙ ap (latest m.capacity) (append_assoc (lines m) (row e ∷ []) (map row es))

drop-map : (n : ℕ) (es : List Experience) → drop n (map row es) ≡ map row (drop n es)
drop-map zero es = refl
drop-map (suc n) [] = refl
drop-map (suc n) (e ∷ es) = drop-map n es

latest-map : (n : ℕ) (es : List Experience) → latest n (map row es) ≡ map row (latest n es)
latest-map n es =
    drop-map (length (map row es) - n) es ∙ ap (λ k. map row (drop (k - n) es)) (length-map row es)

-- Experiences stored one after the other in a file of readable lines are recalled, as many of the last
-- as the capacity holds, in their order.
pub recall-store_each :
    (old es : List Experience) (m : ExperienceMemory)
    → 0 < m.capacity
    → lines m ≡ map row old
    → length old ≤ m.capacity
    → recall none (store_each es m) ≡ some (latest m.capacity (old ++ es))
unfolding recall
recall-store_each old es m h e v =
    let held : lines (store_each es m) ≡ map row (latest m.capacity (old ++ es)) =
      lines-store_each es m h (omega (arith, ap length e, length-map row old, v))
      ∙ ap (λ l. latest m.capacity (l ++ map row es)) e
      ∙ ap (latest m.capacity) (sym (map-append row old es))
      ∙ latest-map m.capacity (old ++ es) in
    ap (λ l. limited none (all_rows l)) held
    ∙ ap (limited none) (all_rows-rows (latest m.capacity (old ++ es)))

exclusive : (o : Option String) → is_status "done" o ≡ true → is_status "failed" o ≡ false
exclusive none h = refl
exclusive (some t) h = ap (λ u. str_eq u "failed") ((eq_iff t "done").0 h)

done-failed-le :
    (es : List Experience)
    → length (keep (has_status "done") es) + length (keep (has_status "failed") es) ≤ length es
done-failed-le [] = omega arith
done-failed-le (e ∷ es) = elim (Bool-cases (is_status "done" e.status)) [
  | inl h ↦ rw (h, exclusive e.status h) (omega (arith, done-failed-le es))
  | inr h ↦ rw h (ground (arith, done-failed-le es))
]

length-all_rows :
    (ls : List (Line Experience)) (es : List Experience)
    → all_rows ls ≡ some es
    → length es ≡ length ls
length-all_rows [] [] h = refl
length-all_rows [] (e ∷ es) h = absurd (nil≢cons (some-injective [] (e ∷ es) h))
length-all_rows (junk ∷ ls) es h = absurd (none-ne-some es h)
length-all_rows (row e ∷ ls) es h = elim (Option-cases (all_rows ls)) [
  | inl q ↦ absurd (none-ne-some es (rw (q, all_rows) at h))
  | inr (rest, q) ↦
      ap length (sym (some-injective (e ∷ rest) es (rw (q, all_rows) at h)))
      ∙ ap suc (length-all_rows ls rest q)
]

-- What the statistics of experiences say.
pub record Agrees (es : List Experience) (s : Stats) : Type 0 where
  pub total_is : s.total ≡ length es
  pub statuses : s.done + s.failed ≤ s.total
  pub rate_is : s.success_rate ≡ (if s.total == 0 then none else some (s.done, s.total))

stats_of-Agrees : (es : List Experience) → Agrees es (stats_of es)
unfolding stats_of
stats_of-Agrees es = record { total_is = refl; statuses = done-failed-le es; rate_is = refl }

summarise-count :
    (ls : List (Line Experience)) (s : Stats)
    → summarise (all_rows ls) ≡ some s
    → (s.total ≡ length ls) × (s.done + s.failed ≤ s.total)
unfolding summarise
summarise-count ls s h = elim (Option-cases (all_rows ls)) [
  | inl q ↦ absurd (none-ne-some s (rw (q, summarise) at h))
  | inr (es, q) ↦
      let e : stats_of es ≡ s = some-injective (stats_of es) s (rw (q, summarise) at h) in
      let v : Agrees es s = subst (Agrees es) e (stats_of-Agrees es) in
      (v.total_is ∙ length-all_rows ls es q, v.statuses)
]

limited_nothing : (o : Option (List Experience)) → limited none o ≡ o
limited_nothing none = refl
limited_nothing (some es) = refl

-- When all lines can be read, the statistics count as many experiences as `count`, and no experience
-- as both done and failed.
pub stats-count :
    (m : ExperienceMemory) (s : Stats)
    → stats m ≡ some s
    → (s.total ≡ count m) × (s.done + s.failed ≤ s.total)
unfolding stats count recall
stats-count m s h =
    summarise-count (lines m) s (ap summarise (sym (limited_nothing (all_rows (lines m)))) ∙ h)
