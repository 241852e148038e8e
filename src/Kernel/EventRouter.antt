-- ===== src/Kernel/EventRouter.antt =====
-- buster/kernel/event_router.py: the event bus, its queue and its worker thread. A handler is
-- known by a number, as Python compares functions by identity; `raises` says whether a handler
-- raises on a payload, and `acts` is what its call does to the bus: handlers emit, and may subscribe or
-- stop. Payloads are of any type `V`, with `empty` for `{}`. The calls are also recorded.
pub mod Dispatch
pub mod Subscribers
pub mod Queue
mod Tests
use aioperator.Prelude.{
  ℕ, zero, suc, Bool, true, false, Option, none, some, List, [], ◌∷◌, ◌++◌, map, String,
  if◌then◌else◌, ◌==◌, get_or, any,
}
use aioperator.Dict.{Dict, get, put, string_eq}

pub record Event (V : Type 0) : Type 0 where
  pub type : String
  pub payload : V

-- `none` on the queue is the stop sentinel. `is_alive`: the worker thread is in its loop.
pub record EventRouter (V : Type 0) : Type 0 where
  pub subscribers : Dict String (List ℕ)
  pub queue : List (Option (Event V))
  pub is_running : Bool
  pub is_alive : Bool

pub record Call (V : Type 0) : Type 0 where
  pub handler : ℕ
  pub payload : V

-- `list.remove`: the first occurrence goes.
unfoldable pub erase_first : ℕ → List ℕ → List ℕ
erase_first h [] = []
erase_first h (x ∷ xs) = let rest = erase_first h xs in if x == h then xs else x ∷ rest

module _ {V : Type 0} where
  abbrev pub init : EventRouter V
  init = record { subscribers = []; queue = []; is_running = false; is_alive = false }

  -- `self._subscribers.get(event_type, [])`
  unfoldable pub handlers : String → EventRouter V → List ℕ
  handlers type r = get_or (get type r.subscribers) []

  unfoldable pub start : EventRouter V → EventRouter V
  start r = if r.is_running then r else record r { is_running = true; is_alive = true }

  -- The worker's rounds while `stop` joins it are rounds of their own.
  unfoldable pub stop : EventRouter V → EventRouter V
  stop r = if r.is_running then record r { is_running = false; queue = r.queue ++ none ∷ [] } else r

  unfoldable pub subscribe : String → ℕ → EventRouter V → EventRouter V
  unfolding handlers
  subscribe type h r = record r { subscribers = put type (handlers type r ++ h ∷ []) r.subscribers }

  unfoldable pub unsubscribe : String → ℕ → EventRouter V → EventRouter V
  unfolding handlers erase_first
  unsubscribe type h r =
      if any (handlers type r) (λ x. x == h)
      then record r { subscribers = put type (erase_first h (handlers type r)) r.subscribers }
      else r

  unfoldable pub emit : V → String → Option V → EventRouter V → EventRouter V
  emit empty type payload r =
      if r.is_running
      then record r {
        queue = r.queue ++ some (record { type = type; payload = get_or payload empty }) ∷ [];
      }
      else r

  module _ (raises : ℕ → V → Bool) where
    -- The loop over the handlers of an event: what was called, and the handlers that raised.
    unfoldable pub call_all : V → List ℕ → List (Call V) → List ℕ → List (Call V) × List ℕ
    call_all payload [] calls errors = (calls, errors)
    call_all payload (h ∷ hs) calls errors =
        call_all payload hs (calls ++ record { handler = h; payload = payload } ∷ [])
          (if raises h payload then errors ++ h ∷ [] else errors)

    module _ (acts : ℕ → V → EventRouter V → EventRouter V) where
      -- What the handlers do to the bus, one behind the other.
      unfoldable pub act_all : V → List ℕ → EventRouter V → EventRouter V
      act_all payload [] r = r
      act_all payload (h ∷ hs) r = act_all payload hs (acts h payload r)

      unfoldable pub emit_sync :
          V → String → Option V → EventRouter V → EventRouter V × (List (Call V) × List ℕ)
      unfolding call_all handlers act_all
      emit_sync empty type payload r = (
        act_all (get_or payload empty) (handlers type r) r,
        call_all (get_or payload empty) (handlers type r) [] [],
      )

      -- One round of `_event_loop`, by what is at the head of the queue.
      unfoldable pub take_event :
          List (Option (Event V)) → EventRouter V → EventRouter V × List (Call V)
      unfolding call_all handlers act_all
      take_event [] r = (r, [])
      take_event (none ∷ queue) r = (record r { queue = queue; is_alive = false }, [])
      take_event (some e ∷ queue) r = (
        act_all e.payload (handlers e.type r) (record r { queue = queue }),
        (call_all e.payload (handlers e.type r) [] []).0,
      )

      unfoldable pub round : EventRouter V → EventRouter V × List (Call V)
      unfolding take_event
      round r =
          if r.is_alive
          then (if r.is_running then take_event r.queue r else (record r { is_alive = false }, []))
          else (r, [])

      unfoldable pub rounds : ℕ → EventRouter V → EventRouter V × List (Call V)
      rounds zero r = (r, [])
      rounds (suc n) r =
          let (r', calls) = round r in let rest = rounds n r' in (rest.0, calls ++ rest.1)
