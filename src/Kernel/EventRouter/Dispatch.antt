-- ===== src/Kernel/EventRouter/Dispatch.antt =====
-- Every handler of an event is called, whichever handlers raise.
use mathlib.Core.List.{append-nil, append_assoc}
use aioperator.Prelude.{
  ℕ, ◌≡◌, Bool, Option, List, [], ◌∷◌, ◌++◌, map, String, if◌then◌else◌, keep, get_or, arith,
}
use aioperator.Kernel.EventRouter.{EventRouter, Call, handlers, call_all, emit_sync}

abbrev pub calls_of : {V : Type 0} → V → List ℕ → List (Call V)
calls_of payload = map (λ h. record { handler = h; payload = payload })

module _ {V : Type 0} (raises : ℕ → V → Bool) where
  pub call_all_lem :
      (payload : V) (hs : List ℕ) (calls : List (Call V)) (errors : List ℕ)
      → call_all raises payload hs calls errors
        ≡ (calls ++ calls_of payload hs, errors ++ keep (λ h. raises h payload) hs)
  unfolding call_all
  call_all_lem payload [] calls errors = simp append-nil
  call_all_lem payload (h ∷ hs) calls errors = ground (
    arith,
    call_all_lem payload hs (calls ++ record { handler = h; payload = payload } ∷ [])
        (if raises h payload then errors ++ h ∷ [] else errors),
    append_assoc calls (record { handler = h; payload = payload } ∷ []) (calls_of payload hs),
    append_assoc errors (h ∷ []) (keep (λ h. raises h payload) hs),
  )

  -- A synchronous emission calls every handler of the event type once, in the order of their
  -- subscription and with the payload (`{}` if none is given), and returns exactly the handlers
  -- that raised, in that order: a handler that raises keeps no other from being called.
  pub emit_sync_lem :
      (acts : ℕ → V → EventRouter V → EventRouter V) (empty : V) (type : String)
      (payload : Option V) (r : EventRouter V)
      → (emit_sync raises acts empty type payload r).1 ≡ (
        calls_of (get_or payload empty) (handlers type r),
        keep (λ h. raises h (get_or payload empty)) (handlers type r),
      )
  unfolding emit_sync
  emit_sync_lem acts empty type payload r =
      call_all_lem (get_or payload empty) (handlers type r) [] []
