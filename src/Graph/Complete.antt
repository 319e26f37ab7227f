-- ===== src/Graph/Complete.antt =====
-- crates/caelix-core/src/module.rs: `definitions` lists every registration that `def` knows, and
-- `def_by_type` finds every type of one.
use caelix.Prelude.{
  length_of_get_elem?, ℕ, zero, suc, ◌+◌, ◌<◌, ◌≡◌, refl, sym, ap, subst, inl, inr, Option, some,
  List, [], ◌∷◌, ◌++◌, map, arith, In, In-append_left, In-append_right, length, get_elem?,
  Option-cases, Bool-cases, ==_iff, ◌==◌, false,
}
use caelix.Container.{ProviderDef}
use caelix.Metadata.{ModuleMetadata}
use caelix.Graph.{
  ModuleNode, ModuleGraph, ProviderSlot, provider, controller, gateway, microservice,
  ProviderRegistration, range, registrations, node_definitions, definitions_from, definitions,
  slot_def, node_def, controller_provider, gateway_provider, microservice_provider, def,
  first_of_type, def_by_type,
}

module _ (index : ℕ) (slot : ℕ → ProviderSlot) where
  abbrev place : ℕ → ProviderRegistration
  place i = record { module_index = index; slot = slot i }

  In-range : (first n i : ℕ) → i < n → In (place (first + i)) (map place (range first n))
  In-range first zero i h = elim h [ ]
  In-range first (suc n) zero h = inl (ap place (omega arith))
  In-range first (suc n) (suc i) h =
      let shift : first + 1 + i ≡ first + suc i = omega arith in
      inr (
        subst (λ k. In (place k) (map place (range (first + 1) n))) shift
          (In-range (first + 1) n i (omega arith)))

  In-registrations {ℓ} :
      {A : Type ℓ} (xs : List A) (i : ℕ) (a : A)
      → get_elem? xs i ≡ some a
      → In (place i) (registrations index slot (length xs))
  In-registrations xs i a e =
      let start : zero + i ≡ i = omega arith in
      subst (λ k. In (place k) (registrations index slot (length xs))) start
        (In-range 0 (length xs) i (length_of_get_elem? xs i a e))

module _ (index : ℕ) (m : ModuleMetadata) (d : ProviderDef) where
  In-node_definitions :
      (slot : ProviderSlot)
      → slot_def m slot ≡ some d
      → In (record { module_index = index; slot = slot }) (node_definitions index m)
  unfolding node_definitions slot_def controller_provider gateway_provider microservice_provider
  In-node_definitions (provider i) e =
      In-append_left _ _ _ (In-registrations index provider m.providers i d e)
  In-node_definitions (controller i) e = elim (Option-cases (get_elem? m.controllers i)) [
    | inl absent ↦ cc (rw absent at e)
    | inr (c, found) ↦
        In-append_right _ (registrations index provider (length m.providers)) _
          (In-append_left _ _ _ (In-registrations index controller m.controllers i c found))
  ]
  In-node_definitions (gateway i) e = elim (Option-cases (get_elem? m.gateways i)) [
    | inl absent ↦ cc (rw absent at e)
    | inr (c, found) ↦ In-append_right _ (registrations index provider (length m.providers)) _ (
        In-append_right _ (registrations index controller (length m.controllers)) _
          (In-append_left _ _ _ (In-registrations index gateway m.gateways i c found)))
  ]
  In-node_definitions (microservice i) e = elim (Option-cases (get_elem? m.microservices i)) [
    | inl absent ↦ cc (rw absent at e)
    | inr (c, found) ↦ In-append_right _ (registrations index provider (length m.providers)) _ (
        In-append_right _ (registrations index controller (length m.controllers)) _ (
          In-append_right _ (registrations index gateway (length m.gateways)) _
            (In-registrations index microservice m.microservices i c found)))
  ]

In-definitions_from :
    (d : ProviderDef) (slot : ProviderSlot) (index i : ℕ) (nodes : List ModuleNode)
    → node_def (get_elem? nodes i) slot ≡ some d
    → In (record { module_index = index + i; slot = slot }) (definitions_from index nodes)
unfolding definitions_from node_def
In-definitions_from d slot index i [] e = cc
In-definitions_from d slot index zero (node ∷ nodes) e =
    let here : index + zero ≡ index = omega arith in
    subst
      (λ k.
        In (record { module_index = k; slot = slot })
          (node_definitions index node.metadata ++ definitions_from (index + 1) nodes))
      (sym here) (In-append_left _ _ _ (In-node_definitions index node.metadata d slot e))
In-definitions_from d slot index (suc i) (node ∷ nodes) e =
    let next : index + 1 + i ≡ index + suc i = omega arith in
    subst
      (λ k.
        In (record { module_index = k; slot = slot })
          (node_definitions index node.metadata ++ definitions_from (index + 1) nodes))
      next
      (In-append_right _ (node_definitions index node.metadata) _
        (In-definitions_from d slot (index + 1) i nodes e))

-- A registration that has a definition is listed.
pub In-definitions :
    (g : ModuleGraph) (r : ProviderRegistration) (d : ProviderDef)
    → def g r ≡ some d
    → In r (definitions g)
unfolding definitions def
In-definitions g r d e =
    let start : zero + r.module_index ≡ r.module_index = omega arith in
    subst (λ k. In (record { module_index = k; slot = r.slot }) (definitions_from 0 g.nodes)) start
      (In-definitions_from d r.slot 0 r.module_index g.nodes e)

Finds : Option ProviderDef → ℕ → Type 0
Finds o t = (d : ProviderDef) × (o ≡ some d) × (d.type_id ≡ t)

module _ (g : ModuleGraph) (d : ProviderDef) (r : ProviderRegistration) (e : def g r ≡ some d) where
  first_of_type-Finds :
      (rs : List ProviderRegistration) → In r rs → Finds (first_of_type g rs d.type_id) d.type_id
  unfolding first_of_type Finds
  first_of_type-Finds [] i = elim i [ ]
  first_of_type-Finds (q ∷ rs) i = elim (Option-cases (def g q)) [
    | inl absent ↦ elim i [
      | inl same ↦ cc (absent, e, ap (def g) same)
      | inr later ↦ rw (absent, first_of_type) (first_of_type-Finds rs later)
    ]
    | inr (p, found) ↦ elim (Bool-cases (p.type_id == d.type_id)) [
      | inl same_type ↦
          (p, rw (found, same_type, first_of_type), (==_iff p.type_id d.type_id).0 same_type)
      | inr other ↦ elim i [
        | inl same ↦
            let pd : p ≡ d = cc (found, e, ap (def g) same) in
            let ne : (d.type_id == d.type_id) ≡ false =
              subst (λ x. (x.type_id == d.type_id) ≡ false) pd other in
            cc (ne, (==_iff d.type_id d.type_id).1 refl)
        | inr later ↦ rw (found, other, first_of_type) (first_of_type-Finds rs later)
      ]
    ]
  ]

-- `def_by_type` finds a definition of each type that has one.
pub def_by_type_finds :
    (g : ModuleGraph) (r : ProviderRegistration) (d : ProviderDef)
    → def g r ≡ some d
    → (p : ProviderDef) × (def_by_type g d.type_id ≡ some p) × (p.type_id ≡ d.type_id)
unfolding def_by_type Finds
def_by_type_finds g r d e = first_of_type-Finds g d r e (definitions g) (In-definitions g r d e)
