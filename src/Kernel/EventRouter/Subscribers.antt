-- ===== src/Kernel/EventRouter/Subscribers.antt =====
-- Who is called after a subscription or its end.
use aioperator.Prelude.{
  ℕ, ◌≡◌, refl, false, List, [], ◌∷◌, ◌++◌, String, str_eq, eq_iff, if◌then◌else◌, any, arith, ◌==◌,
  ==_iff, Bool-cases, inl, inr,
}
use aioperator.Dict.{string_eq}
use aioperator.Dict.Laws.{get-put}
use aioperator.Kernel.EventRouter.{EventRouter, handlers, subscribe, unsubscribe, erase_first}

erase_first-append :
    (h : ℕ) (xs : List ℕ) → any xs (λ x. x == h) ≡ false → erase_first h (xs ++ h ∷ []) ≡ xs
unfolding erase_first
erase_first-append h [] q = ground (arith, ==_iff h h)
erase_first-append h (x ∷ xs) q = ground (arith, erase_first-append h xs)

erase_first_absent : (h : ℕ) (xs : List ℕ) → any xs (λ x. x == h) ≡ false → erase_first h xs ≡ xs
unfolding erase_first
erase_first_absent h [] q = refl
erase_first_absent h (x ∷ xs) q = ground (arith, erase_first_absent h xs)

module _ {V : Type 0} (type other : String) (h : ℕ) (r : EventRouter V) where
  -- A subscription puts the handler behind those of its event type, and changes no other type.
  pub handlers-subscribe :
      handlers other (subscribe type h r)
      ≡ (if str_eq type other then handlers type r ++ h ∷ [] else handlers other r)
  unfolding subscribe
  handlers-subscribe = rw get-put (ground arith)

  -- The end of a subscription takes out the first occurrence of the handler among those of its
  -- event type, if there is one, and changes no other type.
  pub handlers-unsubscribe :
      handlers other (unsubscribe type h r)
      ≡ (if str_eq type other then erase_first h (handlers type r) else handlers other r)
  unfolding unsubscribe
  handlers-unsubscribe = elim (Bool-cases (any (handlers type r) (λ x. x == h))) [
    | inl q ↦
        rw (q, unsubscribe)
          (ground (arith, get-put type other (erase_first h (handlers type r)) r.subscribers))
    | inr q ↦
        rw (q, unsubscribe)
          (ground (arith, eq_iff type other, erase_first_absent h (handlers type r)))
  ]

module _ {V : Type 0} (type other : String) (h : ℕ) (r : EventRouter V) where
  -- A subscription of a handler that its event type did not have, and its end, leave every event
  -- type with the handlers that it had, in their order.
  pub unsubscribe-subscribe :
      any (handlers type r) (λ x. x == h) ≡ false
      → handlers other (unsubscribe type h (subscribe type h r)) ≡ handlers other r
  unsubscribe-subscribe q =
      rw (handlers-unsubscribe, handlers-subscribe type type h r, handlers-subscribe type other h r)
        (ground
          (arith, eq_iff type other, eq_iff type type, erase_first-append h (handlers type r)))
