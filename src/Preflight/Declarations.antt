-- ===== src/Preflight/Declarations.antt =====
-- crates/caelix-core/src/module.rs: what `preflight` guarantees of exports, event handlers and
-- message handlers.
use caelix.Prelude.{
  ℕ, ◌+◌, ◌≤◌, ◌≡◌, sym, ◌∙◌, Bool, true, false, not, ◌||◌, Option, List, [], ◌∷◌, arith, length,
  All,
}
use caelix.Errors.{missing_handler_provider, done, fail_if, >>=-eq-done, fail_if-eq-done}
use caelix.Container.{Container, contains, event_bus_type}
use caelix.Graph.{ModuleNode, ModuleGraph, ProviderRegistration, local_types}
use caelix.Visibility.Sets.{contains_at-in_set}
use caelix.Visibility.{
  Scopes, contains_at, visible, each, check_event_handler, check_event_handlers,
}
use caelix.Visibility.Reexports.{MayExportFrom}
use caelix.Visibility.Reference.{any_exported, visible_in, any_in_set-eq-any_exported}
use caelix.Owners.Single.{message_handlers}
use caelix.Owners.Disjoint.{AllValid}
use caelix.Owners.OneOwner.{OneOwner, check_owners-OneOwner}
use caelix.Preflight.{preflight}
use caelix.Preflight.Steps.{
  preflight-Steps, local-eq, AreScopes, scopes_of-AreScopes, visible-eq-visible_in,
}
use caelix.Preflight.Guarantees.{each-All, All-map}

-- Of the modules from `index` on, what each exports it declares itself or has from a direct import.
abbrev pub ExportsOk : ModuleGraph → ℕ → List ModuleNode → Type 0
ExportsOk g index [] = Unit
ExportsOk g index (node ∷ nodes) =
    All
      (λ x.
        (contains (local_types g index) x.type_id || any_exported g node.imports x.type_id) ≡ true)
      node.metadata.exports
    × ExportsOk g (index + 1) nodes

-- Of the modules from `index` on, each event handler is a provider of its own module, and the module
-- sees the event bus.
abbrev pub HandlersOk : ModuleGraph → ℕ → List ModuleNode → Type 0
HandlersOk g index [] = Unit
HandlersOk g index (node ∷ nodes) =
    All
      (λ h.
        (contains (local_types g index) h.type_id ≡ true)
        × (visible_in g index event_bus_type ≡ true))
      node.metadata.event_handlers
    × HandlersOk g (index + 1) nodes

not-eq-false : (a : Bool) → not a ≡ false → a ≡ true
not-eq-false a h = ground arith

module _ (g : ModuleGraph) (s : Scopes) (a : AreScopes g s) where
  exports_ok :
      (index : ℕ) (nodes : List ModuleNode)
      → index + length nodes ≤ length g.nodes
      → MayExportFrom s.locals s.exports index nodes
      → ExportsOk g index nodes
  exports_ok index [] h m = tt
  exports_ok index (node ∷ nodes) h (m, ms) = (
    All-map _ _
        (λ x e.
          rw
            (
              ← local-eq g s index x.type_id a (omega arith),
              ← any_in_set-eq-any_exported g s.exports node.imports x.type_id
                  (λ j. a.exports j x.type_id),
            )
            e)
        node.metadata.exports m,
    exports_ok (index + 1) nodes (omega arith) ms,
  )

  handlers_ok :
      (index : ℕ) (nodes : List ModuleNode)
      → index + length nodes ≤ length g.nodes
      → check_event_handlers g s index nodes ≡ done tt
      → HandlersOk g index nodes
  unfolding check_event_handlers check_event_handler
  handlers_ok index [] h e = tt
  handlers_ok index (node ∷ nodes) h e =
      let (u, e1, e2) =
        >>=-eq-done (each (check_event_handler g s index node) node.metadata.event_handlers)
          (λ _. check_event_handlers g s (index + 1) nodes) e in
      (
        All-map _ _
            (λ x k.
              let (local, k1, r1) = >>=-eq-done (contains_at s.locals index x.type_id) _ k in
              let (v, k2, r2) =
                >>=-eq-done (fail_if (not local) (missing_handler_provider x.type_name)) _ r1 in
              let (seen, k3, k4) = >>=-eq-done (visible g s index event_bus_type) _ r2 in
              (
                sym (local-eq g s index x.type_id a (omega arith))
                    ∙ contains_at-in_set s.locals index x.type_id k1
                    ∙ not-eq-false local (fail_if-eq-done _ _ k2),
                visible-eq-visible_in g s index event_bus_type a (omega arith) k3
                    ∙ not-eq-false seen (fail_if-eq-done _ _ k4),
              ))
            node.metadata.event_handlers
            (each-All (check_event_handler g s index node) node.metadata.event_handlers e1),
        handlers_ok (index + 1) nodes (omega arith) e2,
      )

-- A module of an accepted graph exports only types that it declares itself or that one of its
-- direct imports exports, and declares every event handler as a provider, where it sees the event bus.
pub preflight-Declares :
    (g : ModuleGraph) (c : Option Container) (order : List ProviderRegistration)
    → preflight g c ≡ done order
    → ExportsOk g 0 g.nodes × HandlersOk g 0 g.nodes
preflight-Declares g c order e =
    let st = preflight-Steps g c order e in
    let a = scopes_of-AreScopes g st.scopes st.scoped in
    (
      exports_ok g st.scopes a 0 g.nodes (omega arith) a.may_export,
      handlers_ok g st.scopes a 0 g.nodes (omega arith) st.handled,
    )

-- In an accepted graph every pattern of a message handler is valid for the kind of the handler, and no
-- subject is accepted by the patterns of two message handlers.
pub preflight-OneOwner :
    (g : ModuleGraph) (c : Option Container) (order : List ProviderRegistration)
    → preflight g c ≡ done order
    → AllValid (message_handlers g.nodes) × OneOwner (message_handlers g.nodes)
preflight-OneOwner g c order e = check_owners-OneOwner g (preflight-Steps g c order e).owned
