-- ===== src/Graph/Definitions.antt =====
-- crates/caelix-core/src/module.rs: every registration that `definitions` lists is in bounds.
use caelix.Prelude.{
  get_elem?-some, ℕ, zero, suc, ◌+◌, ◌<◌, ◌≡◌, ap, subst, ◌∙◌, some, List, [], ◌∷◌, map, arith, All,
  All-append, length, get_elem?,
}
use caelix.Container.{ProviderDef}
use caelix.Graph.{
  ModuleNode, ModuleGraph, ProviderSlot, provider, controller, gateway, microservice,
  ProviderRegistration, range, node_definitions, definitions_from, definitions, slot_def, def,
}

abbrev pub HasDef : ModuleGraph → ProviderRegistration → Type 0
HasDef g r = (d : ProviderDef) × (def g r ≡ some d)

module _ (P : ProviderRegistration → Type 0) (index : ℕ) (slot : ℕ → ProviderSlot) where
  All-registrations :
      (first n : ℕ)
      → ((i : ℕ) → i < first + n → P (record { module_index = index; slot = slot i }))
      → All P (map (λ i. record { module_index = index; slot = slot i }) (range first n))
  All-registrations first zero h = tt
  All-registrations first (suc n) h =
      (h first (omega arith), All-registrations (first + 1) n (λ i lt. h i (omega arith)))

-- The definitions of one module that stands at `index` of the graph.
module _ (g : ModuleGraph) (index : ℕ) (node : ModuleNode)
    (found : get_elem? g.nodes index ≡ some node) where
  private_def :
      (slot : ProviderSlot) (d : ProviderDef)
      → slot_def node.metadata slot ≡ some d
      → HasDef g (record { module_index = index; slot = slot })
  unfolding def
  private_def slot d e = (d, rw found e)

  node_definitions-HasDef : All (HasDef g) (node_definitions index node.metadata)
  unfolding node_definitions slot_def
  node_definitions-HasDef =
      let m = node.metadata in
      All-append (HasDef g) _ _
        (All-registrations (HasDef g) index provider 0 (length m.providers) (λ i h.
          let (d, e) = get_elem?-some m.providers i (omega arith) in private_def (provider i) d e))
        (All-append (HasDef g) _ _
          (All-registrations (HasDef g) index controller 0 (length m.controllers) (λ i h.
            let (d, e) = get_elem?-some m.controllers i (omega arith) in
            private_def (controller i) d.provider (rw e)))
          (All-append (HasDef g) _ _
            (All-registrations (HasDef g) index gateway 0 (length m.gateways) (λ i h.
              let (d, e) = get_elem?-some m.gateways i (omega arith) in
              private_def (gateway i) d.provider (rw e)))
            (All-registrations (HasDef g) index microservice 0 (length m.microservices) (λ i h.
              let (d, e) = get_elem?-some m.microservices i (omega arith) in
              private_def (microservice i) d.provider (rw e)))))

definitions_from-HasDef :
    (g : ModuleGraph) (index : ℕ) (nodes : List ModuleNode)
    → ((i : ℕ) → get_elem? g.nodes (index + i) ≡ get_elem? nodes i)
    → All (HasDef g) (definitions_from index nodes)
unfolding definitions_from
definitions_from-HasDef g index [] h = tt
definitions_from-HasDef g index (node ∷ nodes) h =
    let here : index + 0 ≡ index = omega arith in
    All-append (HasDef g) _ _
      (node_definitions-HasDef g index node
        (subst (λ k. get_elem? g.nodes k ≡ some node) here (h 0)))
      (definitions_from-HasDef g (index + 1) nodes (λ i.
        let next : index + 1 + i ≡ index + suc i = omega arith in
        ap (get_elem? g.nodes) next ∙ h (suc i)))

-- Every registration of a graph has a definition: the indices of `def` are in bounds.
pub definitions-HasDef : (g : ModuleGraph) → All (HasDef g) (definitions g)
unfolding definitions
definitions-HasDef g =
    definitions_from-HasDef g 0 g.nodes (λ i. ap (get_elem? g.nodes) (omega arith))
