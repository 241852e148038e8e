-- ===== src/Kernel/EventRouter/Queue.antt =====
-- The worker takes events in the order of their emission, until a stop.
use mathlib.Core.List.{append-nil, append_assoc}
use aioperator.Prelude.{
  ℕ, zero, suc, ◌≡◌, refl, ap, Bool, true, false, Option, none, some, List, [], ◌∷◌, ◌++◌, map,
  String, get_or, arith, length, length-map, ◌∙◌, sym,
}
use aioperator.Dict.{Dict, get, string_eq}
use aioperator.Kernel.EventRouter.{
  EventRouter, Event, Call, emit, start, stop, round, rounds, act_all, take_event,
}
use aioperator.Kernel.EventRouter.Dispatch.{calls_of, call_all_lem}

abbrev pub Emission : Type 0 → Type 0
Emission V = String × Option V

module _ {V : Type 0} (empty : V) where
  abbrev pub event_of : Emission V → Event V
  event_of e = record { type = e.0; payload = get_or e.1 empty }

  abbrev pub emit_each : List (Emission V) → EventRouter V → EventRouter V
  emit_each [] r = r
  emit_each (e ∷ es) r = emit_each es (emit empty e.0 e.1 r)

  emit_each_running :
      (es : List (Emission V)) (r : EventRouter V)
      → r.is_running ≡ true
      → emit_each es r ≡ record r { queue = r.queue ++ map (λ e. some (event_of e)) es }
  unfolding emit
  emit_each_running [] r h = rw append-nil
  emit_each_running (e ∷ es) r h = ground (
    arith,
    emit_each_running es (emit empty e.0 e.1 r),
    append_assoc r.queue (some (event_of e) ∷ []) (map (λ e. some (event_of e)) es),
  )

  emit_each_stopped :
      (es : List (Emission V)) (r : EventRouter V) → r.is_running ≡ false → emit_each es r ≡ r
  unfolding emit
  emit_each_stopped [] r h = refl
  emit_each_stopped (e ∷ es) r h = ground (arith, emit_each_stopped es r)

map-some {ℓ κ} :
    {A : Type ℓ} {B : Type κ} (f : A → B) (xs : List A)
    → map (λ x. some (f x)) xs ≡ map some (map f xs)
map-some f [] = refl
map-some f (x ∷ xs) = ap (◌∷◌ (some (f x))) (map-some f xs)

-- The calls that a list of events asks for, one event after the other.
abbrev pub delivered : {V : Type 0} → Dict String (List ℕ) → List (Event V) → List (Call V)
delivered subs [] = []
delivered subs (e ∷ es) = calls_of e.payload (get_or (get e.type subs) []) ++ delivered subs es

map-append {ℓ κ} :
    {A : Type ℓ} {B : Type κ} (f : A → B) (xs ys : List A) → map f (xs ++ ys) ≡ map f xs ++ map f ys
map-append f [] ys = refl
map-append f (x ∷ xs) ys = ap (◌∷◌ (f x)) (map-append f xs ys)

-- Handlers that do nothing to the bus but emit.
module _ {V : Type 0} (raises : ℕ → V → Bool) (empty : V) (emits : ℕ → V → List (Emission V)) where
  abbrev pub emitting : ℕ → V → EventRouter V → EventRouter V
  emitting h payload = emit_each empty (emits h payload)

  -- What the handlers of an event emit, and what those of a list of events emit.
  abbrev pub emitted_by : V → List ℕ → List (Emission V)
  emitted_by payload [] = []
  emitted_by payload (h ∷ hs) = emits h payload ++ emitted_by payload hs

  abbrev pub emitted : Dict String (List ℕ) → List (Event V) → List (Emission V)
  emitted subs [] = []
  emitted subs (e ∷ es) = emitted_by e.payload (get_or (get e.type subs) []) ++ emitted subs es

  abbrev pub queued : List (Emission V) → List (Option (Event V))
  queued es = map (λ e. some (event_of empty e)) es

  queued-append :
      (rest : List (Option (Event V))) (xs ys : List (Emission V))
      → (rest ++ queued xs) ++ queued ys ≡ rest ++ queued (xs ++ ys)
  queued-append rest xs ys =
      append_assoc rest (queued xs) (queued ys)
      ∙ ap (λ l. rest ++ l) (sym (map-append (λ e. some (event_of empty e)) xs ys))

  act_all_lem :
      (payload : V) (hs : List ℕ) (r : EventRouter V)
      → r.is_running ≡ true
      → act_all raises emitting payload hs r
        ≡ record r { queue = r.queue ++ queued (emitted_by payload hs) }
  unfolding act_all
  act_all_lem payload [] r run = rw append-nil refl
  act_all_lem payload (h ∷ hs) r run =
      let r' : EventRouter V = record r { queue = r.queue ++ queued (emits h payload) } in
      ap (act_all raises emitting payload hs) (emit_each_running empty (emits h payload) r run)
      ∙ act_all_lem payload hs r' run
      ∙ ap (λ q. record r { queue = q })
          (queued-append r.queue (emits h payload) (emitted_by payload hs))

  -- A round with an event at the head of the queue.
  round_event :
      (e : Event V) (queue : List (Option (Event V))) (r : EventRouter V)
      → r.is_running ≡ true
      → r.is_alive ≡ true
      → r.queue ≡ some e ∷ queue
      → round raises emitting r ≡ (
        record r {
          queue = queue ++ queued (emitted_by e.payload (get_or (get e.type r.subscribers) []));
        },
        calls_of e.payload (get_or (get e.type r.subscribers) []),
      )
  unfolding round take_event
  round_event e queue r run alive q =
      let hs = get_or (get e.type r.subscribers) [] in
      ground (
        arith,
        call_all_lem raises e.payload hs [] [],
        act_all_lem e.payload hs (record r { queue = queue }) run,
      )

  rounds_events :
      (es : List (Event V)) (rest : List (Option (Event V))) (r : EventRouter V)
      → r.is_running ≡ true
      → r.is_alive ≡ true
      → r.queue ≡ map some es ++ rest
      → rounds raises emitting (length es) r ≡ (
        record r { queue = rest ++ queued (emitted r.subscribers es) },
        delivered r.subscribers es,
      )
  unfolding rounds
  rounds_events [] rest r run alive q = rw append-nil (ap (λ l. (record r { queue = l }, [])) q)
  rounds_events (e ∷ es) rest r run alive q =
      let hs = get_or (get e.type r.subscribers) [] in
      let out = emitted_by e.payload hs in
      let calls = calls_of e.payload hs in
      let r' : EventRouter V = record r { queue = (map some es ++ rest) ++ queued out } in
      let behind : EventRouter V × List (Call V) → EventRouter V × List (Call V) =
        λ x. let y = rounds raises emitting (length es) x.0 in (y.0, x.1 ++ y.1) in
      ap behind (round_event e (map some es ++ rest) r run alive q)
      ∙ ap (λ (y : EventRouter V × List (Call V)). (y.0, calls ++ y.1))
          (rounds_events es (rest ++ queued out) r' run alive
            (append_assoc (map some es) rest (queued out)))
      ∙ ap (λ l. (record r { queue = l }, calls ++ delivered r.subscribers es))
          (queued-append rest out (emitted r.subscribers es))

  -- On a bus that runs with an empty queue, whose handlers do nothing to it but emit and which no other
  -- thread uses meanwhile, as many rounds as there were emissions deliver every event to every handler of
  -- its type, in the order of the emissions; on the queue is then exactly what the handlers emitted
  -- during these rounds, in that order.
  pub rounds-emit_each :
      (es : List (Emission V)) (r : EventRouter V)
      → r.is_running ≡ true
      → r.is_alive ≡ true
      → r.queue ≡ []
      → rounds raises emitting (length es) (emit_each empty es r) ≡ (
        record r { queue = queued (emitted r.subscribers (map (event_of empty) es)) },
        delivered r.subscribers (map (event_of empty) es),
      )
  rounds-emit_each es r run alive q =
      let events = map (event_of empty) es in
      rw (emit_each_running empty es r run, ← length-map (event_of empty) es)
        (rounds_events events [] _ run alive
          (rw (q, map-some (event_of empty) es, append-nil) refl))

  round_dead :
      (n : ℕ) (r : EventRouter V) → r.is_alive ≡ false → rounds raises emitting n r ≡ (r, [])
  unfolding rounds round
  round_dead zero r dead = refl
  round_dead (suc n) r dead = ground (arith, round_dead n r)

  -- The state of a bus that is stopped while its worker has not yet taken the events `es`, so that
  -- the worker leaves by the flag, and is started again, once the new worker has taken `es` and
  -- the sentinel of that stop.
  abbrev pub restarted : List (Event V) → EventRouter V → EventRouter V
  restarted es r =
      (round raises emitting
        (rounds raises emitting (length es) (start (round raises emitting (stop r)).0)).0).0

  restart_lem :
      (r : EventRouter V)
      → r.is_running ≡ true
      → r.is_alive ≡ true
      → start (round raises emitting (stop r)).0 ≡ record r { queue = r.queue ++ none ∷ [] }
  unfolding start round stop
  restart_lem r run alive = ground arith

  restarted_lem :
      (es : List (Event V)) (r : EventRouter V)
      → r.is_running ≡ true
      → r.is_alive ≡ true
      → r.queue ≡ map some es
      → restarted es r ≡ record r { queue = queued (emitted r.subscribers es); is_alive = false }
  unfolding round take_event
  restarted_lem es r run alive q =
      let r' : EventRouter V = record r { queue = r.queue ++ none ∷ [] } in
      ground (arith, restart_lem r run alive, rounds_events es (none ∷ []) r' run alive (rw q refl))

  -- A running bus is stopped while its worker is about to test the flag, with the events `es` still
  -- queued, and is started again. Once the new worker has taken `es` and the sentinel of that stop,
  -- the bus says that it runs, but never delivers an event.
  pub restarted_deaf :
      (es : List (Event V)) (r : EventRouter V)
      → r.is_running ≡ true
      → r.is_alive ≡ true
      → r.queue ≡ map some es
      → (later : List (Emission V)) (n : ℕ)
      → ((restarted es r).is_running ≡ true)
        × ((rounds raises emitting n (emit_each empty later (restarted es r))).1 ≡ [])
  restarted_deaf es r run alive q later n =
      let r' : EventRouter V = record r {
        queue = queued (emitted r.subscribers es);
        is_alive = false;
      } in
      let sent = emit_each_running empty later r' run in
      rw (restarted_lem es r run alive q) (
        run,
        ap (λ (t : EventRouter V × List (Call V)). t.1)
            (round_dead n (emit_each empty later r') (rw sent refl)),
      )
