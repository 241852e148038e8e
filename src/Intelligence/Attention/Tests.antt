-- ===== src/Intelligence/Attention/Tests.antt =====
-- Signals of a small queue, and the theorems about them.
use aioperator.Prelude.{
  ℕ, String, ◌≡◌, refl, true, none, List, [], ◌∷◌, codes, map, pos, sort_insert, sort_by, arith, ℤ,
}
use aioperator.Prelude.Strings.{Text, same_text, words_from, split_words, is_in_text, lower_ascii}
use aioperator.Intelligence.Rhythm.{idle}
use aioperator.Intelligence.Attention.{
  AttentionNote, Attention, init, is_relevant, score, emit, enqueue, surface, note_signal,
  note_event, consume, peek, clear,
}
use aioperator.Intelligence.Attention.Queue.{IsValid, KeepsBest, note_signal-KeepsBest}

program : Unit {0}
unfolding sort_insert sort_by same_text words_from split_words is_in_text init is_relevant score
    emit enqueue surface note_signal note_event consume peek clear
program = tt

abbrev lower : Text → Text
lower t = lower_ascii t

abbrev told : ℕ → String → String → Attention → Attention
unfolding program
told now level text a = (note_signal lower now "network" level (codes text) [] idle [] a).1

-- Three signals in a queue that holds two.
abbrev full : Attention
unfolding program
full =
    told 3 "critical" "link down"
      (told 2 "warning" "link slow" (told 1 "info" "link up" (init true 2)))

abbrev shown : List AttentionNote → List (ℤ × ℕ)
shown ns = map (λ n. (n.score, n.ts)) ns

run_tests :
    (shown full.queue ≡ (pos 60, 3) ∷ (pos 50, 2) ∷ [])
    × (shown full.emitted ≡ (pos 35, 1) ∷ (pos 50, 2) ∷ (pos 60, 3) ∷ [])
    × ((note_signal lower 4 "host" "info" (codes "link up") [] idle [] full).0 ≡ none)
    × (shown
          (note_signal lower 4 "host" "ok"
            (codes "Disk full")
            (codes "clean DISK" ∷ [])
            idle
            []
            full).1.queue
        ≡ (pos 60, 3) ∷ (pos 50, 2) ∷ [])
    × (shown (consume 1 full).0 ≡ (pos 60, 3) ∷ [])
unfolding program
run_tests = (refl, refl, refl, refl, refl)

full-IsValid : IsValid full
unfolding full
full-IsValid = record { sorted = ((refl, tt), (tt, tt)); bounded = omega arith }

abbrev hot : AttentionNote
hot = record {
  kind = "net";
  level = "warning";
  message = codes "hot";
  score = pos 50;
  ts = 4;
  details = [];
}

note_signal-KeepsBest_example :
    KeepsBest full hot (note_signal lower 4 "net" "warning" (codes "hot") [] idle [] full).1.queue
unfolding program
note_signal-KeepsBest_example =
    note_signal-KeepsBest lower 4 "net" "warning" (codes "hot") [] idle [] full hot refl
