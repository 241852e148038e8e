-- ===== src/Kernel/Permissions/Persistence.antt =====
-- The rows handed to the persistence hook rebuild the rules.
use aioperator.Prelude.{◌≡◌, refl, ap, true, List, [], ◌∷◌, ◌++◌, map, arith}
use aioperator.Kernel.Permissions.{
  Permissions, PermissionRule, Row, init, to_rules, from_rules, notify, clear,
}
use aioperator.Kernel.Permissions.History.{Addition, apply, granting, denying, evaluating}
use aioperator.Kernel.Permissions.{to_row, of_row, grant, deny, register_evaluator}

of_row-to_row : (rules : List PermissionRule) → map of_row (map to_row rules) ≡ rules
unfolding of_row to_row
of_row-to_row [] = refl
of_row-to_row (r ∷ rules) = ap (◌∷◌ r) (of_row-to_row rules)

-- What the last call of the hook was given: none before the first call.
abbrev pub last_rows : List (List Row) → List Row
last_rows [] = []
last_rows (rows ∷ []) = rows
last_rows (rows ∷ next ∷ rest) = last_rows (next ∷ rest)

last_rows-append :
    (calls : List (List Row)) (rows : List Row) → last_rows (calls ++ rows ∷ []) ≡ rows
last_rows-append [] rows = refl
last_rows-append (c ∷ []) rows = refl
last_rows-append (c ∷ d ∷ calls) rows = last_rows-append (d ∷ calls) rows

pub data Change (C : Type 0) : Type 0 where
  adding : Addition C → Change C
  clearing : Change C

module _ {C : Type 0} where
  pub change : Change C → Permissions C → Permissions C
  change (adding a) = apply a
  change clearing = clear

  pub session : List (Change C) → Permissions C → Permissions C
  session [] p = p
  session (c ∷ rest) p = session rest (change c p)

  -- A new process: the kernel loads the rows that the hook stored last.
  pub restart : Permissions C → Permissions C
  restart p = from_rules (last_rows p.persisted) (init true)

  record IsSynced (p : Permissions C) : Type 0 where
    hooked : p.has_hook ≡ true
    synced : last_rows p.persisted ≡ to_rules p

  notify-IsSynced : (p : Permissions C) → p.has_hook ≡ true → IsSynced (notify p)
  unfolding notify to_rules
  notify-IsSynced p h = record {
    hooked = ground arith;
    synced = ground (arith, last_rows-append p.persisted (to_rules p));
  }

  change-IsSynced : (c : Change C) (p : Permissions C) → IsSynced p → IsSynced (change c p)
  unfolding change apply grant deny register_evaluator clear
  change-IsSynced (adding (granting a s n)) p h = notify-IsSynced _ h.hooked
  change-IsSynced (adding (denying a s n)) p h = notify-IsSynced _ h.hooked
  change-IsSynced (adding (evaluating e)) p h = record { hooked = h.hooked; synced = h.synced }
  change-IsSynced clearing p h = notify-IsSynced _ h.hooked

  session-IsSynced :
      (cs : List (Change C)) (p : Permissions C) → IsSynced p → IsSynced (session cs p)
  unfolding session
  session-IsSynced [] p h = h
  session-IsSynced (c ∷ cs) p h = session-IsSynced cs (change c p) (change-IsSynced c p h)

  -- After any session of grants, denials, new evaluators and clears on a store with a hook, a new
  -- process that loads what the hook stored last has the same rules, in the same order.
  pub restart-session :
      (changes : List (Change C))
      → (restart (session changes (init true))).rules ≡ (session changes (init true)).rules
  unfolding restart from_rules init to_rules
  restart-session changes =
      let start : IsSynced (init {C = C} true) = record { hooked = refl; synced = refl } in
      rw (session-IsSynced changes (init true) start).synced (of_row-to_row _)
