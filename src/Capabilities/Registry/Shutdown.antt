-- ===== src/Capabilities/Registry/Shutdown.antt =====
-- buster/capabilities/registry.py: `shutdown`, the listings, and `run_async`, which makes a call a job
-- of the kernel's scheduler. `less_name` is `<` on names. An exception of `close` is logged.
use aioperator.Prelude.{
  ℕ, ◌≡◌, refl, ap, Bool, Bool-cases, true, Option, none, some, List, [], ◌∷◌, map, String, str_eq,
  eq_refl, fstring, inl, inr, any, sort_by, pos, arith,
}
use aioperator.Dict.{Dict, get, remove, keys, string_eq}
use aioperator.Dict.Laws.{get-remove}
use aioperator.Kernel.Scheduler.{Scheduler, schedule}
use aioperator.Capabilities.Registry.{Capability, CapabilityRegistry, Effect, closed}

module _ {V D : Type 0} where
  -- The loop of `shutdown` over the names that were there when it began.
  unfoldable pub close_each :
      List String → CapabilityRegistry V D → CapabilityRegistry V D × List (Effect V)
  close_each [] r = (r, [])
  close_each (name ∷ names) r =
      let rest = close_each names (record r { capabilities = remove name r.capabilities }) in
      (rest.0, closed name ∷ rest.1)

  unfoldable pub shutdown : CapabilityRegistry V D → CapabilityRegistry V D × List (Effect V)
  unfolding close_each
  shutdown r =
      let done = close_each (keys r.capabilities) r in (record done.0 { action_map = [] }, done.1)

  unfoldable pub list_capabilities :
      (less_name : String → String → Bool) → CapabilityRegistry V D → List String
  list_capabilities less_name r = sort_by less_name (keys r.capabilities)

  unfoldable pub list_actions :
      (less_name : String → String → Bool) → CapabilityRegistry V D → List String
  list_actions less_name r = sort_by less_name (keys r.action_map)

  -- `none` is the error of a registry without a kernel.
  unfoldable pub run_async :
      (id now : ℕ) (action : String) → CapabilityRegistry V D → Scheduler → Option Scheduler
  run_async id now action r s = elim r.kernel [
    | none ↦ none
    | some _ ↦ some (schedule id (fstring ("cap." ∷ action ∷ [])) now (pos 0) none (pos 0) s)
  ]

  -- Every key of the dictionary is one of the names.
  abbrev IsListed : List String → Dict String (Capability V D) → Type 0
  IsListed names d =
      (k : String) (c : Capability V D) → get k d ≡ some c → any names (λ n. str_eq n k) ≡ true

  IsListed-none : (d : Dict String (Capability V D)) → IsListed [] d → d ≡ []
  unfolding get
  IsListed-none [] h = refl
  IsListed-none ((k, c) ∷ d) h = absurd (ground (arith, h k c (rw (eq_refl k) refl)))

  IsListed-remove :
      (name : String) (names : List String) (d : Dict String (Capability V D))
      → IsListed (name ∷ names) d
      → IsListed names (remove name d)
  IsListed-remove name names d h k c e = elim (Bool-cases (str_eq name k)) [
    | inl q ↦ absurd (ground (arith, get-remove name k d, e, q))
    | inr q ↦ ground (arith, get-remove name k d, h k c, e, q)
  ]

  IsListed-keys : (d : Dict String (Capability V D)) → IsListed (keys d) d
  unfolding get
  IsListed-keys [] k c e = absurd (ground arith)
  IsListed-keys ((j, w) ∷ d) k c e = ground (arith, IsListed-keys d k c)

  close_each_empty :
      (names : List String) (r : CapabilityRegistry V D)
      → IsListed names r.capabilities
      → ((close_each names r).0.capabilities ≡ []) × ((close_each names r).1 ≡ map closed names)
  unfolding close_each
  close_each_empty [] r h = (IsListed-none r.capabilities h, refl)
  close_each_empty (name ∷ names) r h =
      let r' : CapabilityRegistry V D = record r { capabilities = remove name r.capabilities } in
      let (e, f) = close_each_empty names r' (IsListed-remove name names r.capabilities h) in
      (e, ap (λ es. closed name ∷ es) f)

  -- The shutdown closes every capability once, in the order of their registration, and leaves a
  -- registry without capabilities and without actions.
  pub shutdown_lem :
      (r : CapabilityRegistry V D)
      → ((shutdown r).0.capabilities ≡ [])
        × ((shutdown r).0.action_map ≡ [])
        × ((shutdown r).1 ≡ map closed (keys r.capabilities))
  unfolding shutdown
  shutdown_lem r =
      let (e, f) = close_each_empty (keys r.capabilities) r (IsListed-keys r.capabilities) in
      (e, refl, f)
