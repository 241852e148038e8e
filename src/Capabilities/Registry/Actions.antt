-- ===== src/Capabilities/Registry/Actions.antt =====
-- Which actions have a capability after registrations and their ends.
use aioperator.Prelude.{
  ◌≡◌, false, not, none, some, List, [], ◌∷◌, String, str_eq, eq_iff, if◌then◌else◌, arith, ◌⊎◌,
  inl, inr, Option-cases, Bool-cases,
}
use aioperator.Dict.{Dict, get, put, remove, string_eq}
use aioperator.Dict.Laws.{get-put, get-put_self, get-remove}
use aioperator.Dict.Distinct.{IsDistinct, IsDistinct-put, IsDistinct-keep, get-keep}
use aioperator.Capabilities.Registry.{
  Capability, CapabilityRegistry, register, unregister, find_capability, map_actions, without_owner,
}

-- Every action belongs to a capability that is registered under its own name.
pub record IsConsistent {V D : Type 0} (r : CapabilityRegistry V D) : Type 0 where
  pub distinct : IsDistinct r.action_map
  pub named :
      (name : String) (c : Capability V D) → get name r.capabilities ≡ some c → c.name ≡ name
  pub owned :
      (action owner : String)
      → get action r.action_map ≡ some owner
      → (c : Capability V D) × (get owner r.capabilities ≡ some c)

map_actions-IsDistinct :
    (name : String) (actions : List String) (m : Dict String String)
    → IsDistinct m
    → IsDistinct (map_actions name actions m)
map_actions-IsDistinct name [] m h = h
map_actions-IsDistinct name (a ∷ actions) m h =
    map_actions-IsDistinct name actions (put a name m) (IsDistinct-put a name m h)

-- An action behind `map_actions` has the owner that it had, or the new one.
get-map_actions :
    (name : String) (actions : List String) (m : Dict String String) (action owner : String)
    → get action (map_actions name actions m) ≡ some owner
    → (owner ≡ name) ⊎ (get action m ≡ some owner)
get-map_actions name [] m action owner h = inr h
get-map_actions name (a ∷ actions) m action owner h =
    elim (get-map_actions name actions (put a name m) action owner h) [
      | inl e ↦ inl e
      | inr g ↦ ground (arith, get-put a action name m)
    ]

module _ {V D : Type 0} where
  abbrev with_capability : Capability V D → CapabilityRegistry V D → CapabilityRegistry V D
  with_capability c r = record r {
    capabilities = put c.name c r.capabilities;
    action_map = map_actions c.name c.actions r.action_map;
  }

  abbrev without_capability : String → CapabilityRegistry V D → CapabilityRegistry V D
  without_capability name r = record r {
    capabilities = remove name r.capabilities;
    action_map = without_owner name r.action_map;
  }

  -- The registry behind a registration, or the end of one, that succeeded.
  register-inr :
      (c : Capability V D) (r r' : CapabilityRegistry V D)
      → (register c r).0 ≡ inr r'
      → r' ≡ with_capability c r
  unfolding register
  register-inr c r r' h = ground arith

  unregister-inr :
      (name : String) (r r' : CapabilityRegistry V D)
      → (unregister name r).0 ≡ inr r'
      → r' ≡ without_capability name r
  unfolding unregister
  unregister-inr name r r' h = ground arith

  owned_after :
      (c : Capability V D) (r : CapabilityRegistry V D) (owner : String)
      → (owner ≡ c.name) ⊎ ((c' : Capability V D) × (get owner r.capabilities ≡ some c'))
      → (c' : Capability V D) × (get owner (put c.name c r.capabilities) ≡ some c')
  owned_after c r owner (inl e) = (c, rw e (get-put_self c.name c r.capabilities))
  owned_after c r owner (inr (c', g)) = elim (Bool-cases (str_eq c.name owner)) [
    | inl e ↦ (c, rw get-put (ground arith))
    | inr e ↦ (c', rw get-put (ground arith))
  ]

  -- A successful registration keeps the registry consistent.
  pub register-IsConsistent :
      (c : Capability V D) {r r' : CapabilityRegistry V D}
      → IsConsistent r
      → (register c r).0 ≡ inr r'
      → IsConsistent r'
  register-IsConsistent c {r} {r'} v h = rw (register-inr c r r' h) (record {
    distinct = map_actions-IsDistinct c.name c.actions r.action_map v.distinct;
    named = λ name c' g.
        ground (arith, get-put c.name name c r.capabilities, eq_iff c.name name, v.named name c');
    owned = λ action owner g.
        owned_after c r owner (elim (get-map_actions c.name c.actions r.action_map action owner g) [
          | inl e ↦ inl e
          | inr g' ↦ inr (v.owned action owner g')
        ]);
  })

  -- After a capability has been unregistered none of its actions finds a capability, and every
  -- other action finds the one that it found before.
  pub find_capability-unregister :
      (name action : String) {r r' : CapabilityRegistry V D}
      → IsConsistent r
      → (unregister name r).0 ≡ inr r'
      → find_capability action r' ≡ elim (get action r.action_map) [
        | none ↦ none
        | some owner ↦ if str_eq owner name then none else find_capability action r
      ]
  unfolding find_capability without_owner
  find_capability-unregister name action {r} {r'} v h =
      rw (unregister-inr name r r' h) (elim (Option-cases (get action r.action_map)) [
        | inl e ↦
            ground (arith, get-keep (λ e. not (str_eq e.1 name)) action r.action_map v.distinct)
        | inr (owner, e) ↦ ground (
          arith,
          get-keep (λ e. not (str_eq e.1 name)) action r.action_map v.distinct,
          get-remove name owner r.capabilities,
          eq_iff owner name,
          eq_iff name owner,
        )
      ])

  get-without_owner :
      (name action owner : String) (r : CapabilityRegistry V D)
      → IsConsistent r
      → get action (without_owner name r.action_map) ≡ some owner
      → (get action r.action_map ≡ some owner) × (str_eq owner name ≡ false)
  unfolding without_owner
  get-without_owner name action owner r v g =
      ground (arith, get-keep (λ e. not (str_eq e.1 name)) action r.action_map v.distinct)

  unregister-IsConsistent :
      (name : String) {r r' : CapabilityRegistry V D}
      → IsConsistent r
      → (unregister name r).0 ≡ inr r'
      → IsConsistent r'
  unregister-IsConsistent name {r} {r'} v h = rw (unregister-inr name r r' h) (record {
    distinct = unfold without_owner in IsDistinct-keep _ r.action_map v.distinct;
    named = λ n c g. v.named n c (ground (arith, get-remove name n r.capabilities));
    owned = λ action owner g.
        let (g', ne) = get-without_owner name action owner r v g in
        let (c, gc) = v.owned action owner g' in
        (
          c,
          ground
              (arith, get-remove name owner r.capabilities, eq_iff name owner, eq_iff owner name),
        );
  })

-- The registries that registrations and their ends lead to, from the empty one.
pub data Reach {V D : Type 0} : CapabilityRegistry V D → Type 0 where
  empty : (r : CapabilityRegistry V D) → r.capabilities ≡ [] → r.action_map ≡ [] → Reach r
  registers :
      {r r' : CapabilityRegistry V D} (c : Capability V D)
      → Reach r
      → (register c r).0 ≡ inr r'
      → Reach r'
  unregisters :
      {r r' : CapabilityRegistry V D} (name : String)
      → Reach r
      → (unregister name r).0 ≡ inr r'
      → Reach r'

-- In every registry that successful registrations and their ends lead to, each action is mapped to
-- a registered capability, each capability is filed under its own name, and no action is mapped
-- twice.
pub Reach-IsConsistent : {V D : Type 0} {r : CapabilityRegistry V D} → Reach r → IsConsistent r
Reach-IsConsistent (empty r e f) = record {
  distinct = rw f tt;
  named = λ name c g. absurd (unfold get in ground arith);
  owned = λ action owner g. absurd (unfold get in ground arith);
}
Reach-IsConsistent (registers c h e) = register-IsConsistent c (Reach-IsConsistent h) e
Reach-IsConsistent (unregisters name h e) = unregister-IsConsistent name (Reach-IsConsistent h) e
