-- ===== src/Lifecycle/Rollback.antt =====
-- crates/caelix-core/src/module.rs: a start that fails shuts down what it started.
use caelix.Prelude.{
  ◌≡◌, refl, sym, ap, subst, ◌∙◌, ◌||◌, Bool-cases, Option, none, some, List, [], ◌∷◌, All, inl,
  inr,
}
use mathlib.Core.List.{reverse}
use caelix.Errors.{Outcome, done, fail, panicked, out_of_fuel}
use caelix.Container.{
  ProviderValue, ProviderDef, contains_type_id, was_overridden, pending_override,
  mark_provider_declared,
}
use caelix.Metadata.{EventHandlerDef}
use caelix.Graph.{ModuleNode, ModuleGraph, ProviderRegistration, def}
use caelix.Preflight.{preflight}
use caelix.Lifecycle.{
  World, Run, with_container, initialize_provider, initialize_providers, or_rollback, subscribe,
  resolve_handler, register_handler, register_handlers, register_nodes, with_order,
  initialize_graph,
}
use caelix.Lifecycle.Trace.{started, stopped, Available}
use caelix.Lifecycle.Live.{
  Live, Settled, continue-Settled, build_provider-Settled, rollback_graph-Settled,
}

module _ (g : ModuleGraph) where
  initialize_provider-Settled :
      (r : ProviderRegistration) (o : Option ProviderDef) (w : World)
      → def g r ≡ o
      → Live g w
      → Settled g (initialize_provider g o w)
  initialize_provider-Settled r none w found h = inl h
  initialize_provider-Settled r (some declared) w found h =
      elim (Bool-cases (
        contains_type_id w.container declared.type_id
        || was_overridden w.container declared.type_id)) [
          | inl skip ↦ rw skip h
          | inr go ↦ rw go (
              build_provider-Settled g declared r found
                (pending_override w.container declared.type_id)
                (with_container (λ c. mark_provider_declared c declared.type_id) w) h)
        ]

  initialize_providers-Settled :
      (rs : List ProviderRegistration) (w : World)
      → Live g w
      → Settled g (initialize_providers g rs w)
  unfolding initialize_providers
  initialize_providers-Settled [] w h = h
  initialize_providers-Settled (r ∷ rs) w h =
      continue-Settled g _ _ (initialize_provider-Settled r (def g r) w refl h)
        (initialize_providers-Settled rs)

  register_handler-Settled :
      (h : EventHandlerDef) (found : Outcome ProviderValue) (w : World)
      → Live g w
      → Settled g (or_rollback g (subscribe h found w))
  register_handler-Settled h (done v) w l = l
  register_handler-Settled h (fail e) w l = rollback_graph-Settled g w l e
  register_handler-Settled h panicked w l = inl l
  register_handler-Settled h out_of_fuel w l = inl l

  register_handlers-Settled :
      (hs : List EventHandlerDef) (w : World) → Live g w → Settled g (register_handlers g hs w)
  unfolding register_handlers
  register_handlers-Settled [] w l = l
  register_handlers-Settled (h ∷ hs) w l =
      continue-Settled g (or_rollback g (register_handler h w)) _
        (register_handler-Settled h (resolve_handler h _) w l) (register_handlers-Settled hs)

  register_nodes-Settled :
      (nodes : List ModuleNode) (w : World) → Live g w → Settled g (register_nodes g nodes w)
  unfolding register_nodes
  register_nodes-Settled [] w l = l
  register_nodes-Settled (node ∷ nodes) w l =
      continue-Settled g _ _ (register_handlers-Settled node.metadata.event_handlers w l)
        (register_nodes-Settled nodes)

  with_order-Settled :
      (m : Outcome (List ProviderRegistration)) (w : World) (k : List ProviderRegistration → Run)
      → Live g w
      → w.container.initialized_providers ≡ []
      → ((order : List ProviderRegistration) → Settled g (k order))
      → Settled g (with_order w m k)
  with_order-Settled (done order) w k l e f = f order
  with_order-Settled (fail x) w k (b, s, a) e f = (s ∙ ap reverse (sym (b ∙ e)), e)
  with_order-Settled panicked w k l e f = inl l
  with_order-Settled out_of_fuel w k l e f = inl l

pub initialize_graph-Settled :
    (g : ModuleGraph) (w : World)
    → w.calls ≡ []
    → w.container.initialized_providers ≡ []
    → Settled g (initialize_graph g w)
unfolding initialize_graph
initialize_graph-Settled g w fresh empty =
    let live : Live g w = (
      ap started fresh ∙ sym empty,
      ap stopped fresh,
      subst (All (Available g w.container)) (sym empty) tt,
    ) in
    with_order-Settled g (preflight g (some w.container)) w _ live empty (λ order.
      continue-Settled g _ _ (initialize_providers-Settled g order w live)
        (register_nodes-Settled g g.nodes))
