-- ===== src/Kernel/EventRouter/Tests.antt =====
-- A bus with two subscribers of which the first raises, and the theorems about it.
use aioperator.Prelude.{
  ℕ, ◌≡◌, refl, Bool, true, none, some, List, [], ◌∷◌, ◌==◌, if◌then◌else◌, ◌+◌,
}
use aioperator.Dict.{get, put, string_eq}
use aioperator.Kernel.EventRouter.{
  EventRouter, Event, Call, init, handlers, start, stop, subscribe, unsubscribe, emit, emit_sync,
  rounds, round,
}
use aioperator.Kernel.EventRouter.Queue.{Emission, emit_each, rounds-emit_each}

program : Unit {0}
unfolding get put start stop subscribe unsubscribe emit emit_sync round rounds
program = tt

abbrev raises : ℕ → ℕ → Bool
raises h payload = h == 7

-- Handler 8 emits an event of the other type.
abbrev emits : ℕ → ℕ → List (Emission ℕ)
emits h payload = if h == 8 then ("b", some (payload + 1)) ∷ [] else []

abbrev emitting_one : ℕ → ℕ → EventRouter ℕ → EventRouter ℕ
emitting_one h payload r = emit_each 0 (emits h payload) r

abbrev bus : EventRouter ℕ
bus = record {
  subscribers = ("a", 7 ∷ 8 ∷ []) ∷ ("b", 9 ∷ []) ∷ [];
  queue = [];
  is_running = true;
  is_alive = true;
}

abbrev call : ℕ → ℕ → Call ℕ
call h p = record { handler = h; payload = p }

bus_tests :
    ((emit_sync raises emitting_one 0 "a" (some 5) bus).1 ≡ (call 7 5 ∷ call 8 5 ∷ [], 7 ∷ []))
    × ((rounds raises emitting_one 2 (emit 0 "b" none (emit 0 "a" (some 1) bus))).1
        ≡ call 7 1 ∷ call 8 1 ∷ call 9 0 ∷ [])
    × (handlers "a" (subscribe "a" 3 (init {V = ℕ})) ≡ 3 ∷ [])
    × ((emit 0 "a" none (stop bus)).queue ≡ none ∷ [])
unfolding program handlers
bus_tests = (refl, refl, refl, refl)

abbrev sent : List (Emission ℕ)
sent = ("b", none) ∷ ("a", some 2) ∷ []

rounds-emit_each_example : rounds raises emitting_one 2 (emit_each 0 sent bus) ≡ (
  record bus { queue = some (record { type = "b"; payload = 3 }) ∷ [] },
  call 9 0 ∷ call 7 2 ∷ call 8 2 ∷ [],
)
unfolding get
rounds-emit_each_example = rounds-emit_each raises 0 emits sent bus refl refl refl

abbrev event : Event ℕ
event = record { type = "a"; payload = 1 }

abbrev busy : EventRouter ℕ
busy = record bus { queue = some event ∷ [] }
