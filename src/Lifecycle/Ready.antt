-- ===== src/Lifecycle/Ready.antt =====
-- crates/caelix-core/src/module.rs: `initialize_graph` calls a constructor when the dependencies of
-- its provider are in the container.
use caelix.Prelude.{ℕ, ◌≡◌, refl, sym, subst, true, some, List, [], ◌∷◌, All, In}
use caelix.Errors.{Outcome, done, fail, panicked, out_of_fuel}
use caelix.Container.{ProviderValue, ProviderDef, Container, has, logger_type}
use caelix.Metadata.{EventHandlerDef}
use caelix.Graph.{ModuleNode, ModuleGraph, ProviderRegistration, definitions, def}
use caelix.Graph.Complete.{In-definitions}
use caelix.Visibility.{effective}
use caelix.Schedule.Sequence.{key, after, Placed, Ordered, key_of_def}
use caelix.Preflight.{preflight}
use caelix.Preflight.Guarantees.{
  provided, DependencyOk, preflight-Ordered, preflight_visibility, All-map, All-In,
}
use caelix.Lifecycle.{
  World, Run, initialize_provider, initialize_providers, continue, or_rollback, subscribe,
  resolve_handler, register_handler, register_handlers, register_nodes, with_order,
  initialize_graph,
}
use caelix.Lifecycle.Serving.{
  BuiltReady, AllReady, Keyed, rollback_graph-ServesRun, Serves, ServesRun,
}
use caelix.Lifecycle.Building.{continue-Serves, initialize_provider-Serves}

module _ (g : ModuleGraph) (c : Container) where
  abbrev RegistrationOk : ProviderRegistration → Type 0
  RegistrationOk r =
      (d : ProviderDef) × (def g r ≡ some d)
      × All (DependencyOk g (some c) r.module_index) (effective (some c) d).dependencies

  module _ (logger : has (c.services logger_type) ≡ true) (keyed : Keyed c)
      (ok : All RegistrationOk (definitions g)) where
    Placed-Serves :
        (r : ProviderRegistration) (seen : List ℕ) (w : World)
        → Placed g (some c) (λ t. In t (provided g)) seen r
        → Serves c seen w
        → ServesRun c (key g r ∷ seen) (initialize_provider g (def g r) w)
    Placed-Serves r seen w p s =
        let d = p.declared in
        let (d', found, deps) =
          All-In RegistrationOk (definitions g) r ok (In-definitions g r d p.found) in
        let same : d' ≡ d = cc (found, p.found) in
        subst (λ t. ServesRun c (t ∷ seen) (initialize_provider g (def g r) w))
          (sym (key_of_def g r d p.found))
          (subst (λ o. ServesRun c (d.type_id ∷ seen) (initialize_provider g o w)) (sym p.found)
            (initialize_provider-Serves g c d seen r.module_index w logger keyed p.fresh
              (subst
                (λ x.
                  All (DependencyOk g (some c) r.module_index) (effective (some c) x).dependencies)
                same deps)
              p.behind s))

    initialize_providers-Serves :
        (rs : List ProviderRegistration) (seen : List ℕ) (w : World)
        → Ordered g (some c) (λ t. In t (provided g)) seen rs
        → Serves c seen w
        → ServesRun c (after g seen rs) (initialize_providers g rs w)
    unfolding initialize_providers
    initialize_providers-Serves [] seen w o s = s
    initialize_providers-Serves (r ∷ rs) seen w (p, o) s =
        continue-Serves g c (key g r ∷ seen) (after g seen (r ∷ rs))
          (initialize_provider g (def g r) w) (initialize_providers g rs)
          (Placed-Serves r seen w p s)
          (λ w' s'. initialize_providers-Serves rs (key g r ∷ seen) w' o s')

  register_handler-Serves :
      (seen : List ℕ) (h : EventHandlerDef) (found : Outcome ProviderValue) (w : World)
      → Serves c seen w
      → ServesRun c seen (or_rollback g (subscribe h found w))
  register_handler-Serves seen h (done v) w s = record {
    ready = s.ready;
    served = s.served;
    pending = s.pending;
    applied = s.applied;
    kept = s.kept;
  }
  register_handler-Serves seen h (fail e) w s = rollback_graph-ServesRun g c seen e w s.ready
  register_handler-Serves seen h panicked w s = s.ready
  register_handler-Serves seen h out_of_fuel w s = s.ready

  register_handlers-Serves :
      (seen : List ℕ) (hs : List EventHandlerDef) (w : World)
      → Serves c seen w
      → ServesRun c seen (register_handlers g hs w)
  unfolding register_handlers
  register_handlers-Serves seen [] w s = s
  register_handlers-Serves seen (h ∷ hs) w s =
      continue-Serves g c seen seen (or_rollback g (register_handler h w)) _
        (register_handler-Serves seen h (resolve_handler h _) w s)
        (register_handlers-Serves seen hs)

  register_nodes-Serves :
      (seen : List ℕ) (nodes : List ModuleNode) (w : World)
      → Serves c seen w
      → ServesRun c seen (register_nodes g nodes w)
  unfolding register_nodes
  register_nodes-Serves seen [] w s = s
  register_nodes-Serves seen (node ∷ nodes) w s =
      continue-Serves g c seen seen (register_handlers g node.metadata.event_handlers w)
        (register_nodes g nodes) (register_handlers-Serves seen node.metadata.event_handlers w s)
        (register_nodes-Serves seen nodes)

-- What a start leaves: no constructor ran before its dependencies, and where the start succeeds,
-- every type that the graph provides has a value.
abbrev pub Populated : ModuleGraph → Run → Type 0
Populated g (done u, w) =
    AllReady w × All (λ r. has (w.container.services (key g r)) ≡ true) (definitions g)
Populated g (fail e, w) = AllReady w
Populated g (panicked, w) = AllReady w
Populated g (out_of_fuel, w) = AllReady w

Serves-Populated :
    (g : ModuleGraph) (c : Container) (seen : List ℕ) (r : Run)
    → All (λ q. In (key g q) seen) (definitions g)
    → ServesRun c seen r
    → Populated g r
Serves-Populated g c seen (done u, w) a s =
    (s.ready, All-map _ _ (λ q i. s.served (key g q) i) (definitions g) a)
Serves-Populated g c seen (fail e, w) a s = s
Serves-Populated g c seen (panicked, w) a s = s
Serves-Populated g c seen (out_of_fuel, w) a s = s

-- In a start from a container that has the logger, and overrides under their own types, a
-- constructor is called only with a value for every dependency of its provider in the container;
-- and if the start succeeds, every type that the graph provides has a value.
pub initialize_graph-Populated :
    (g : ModuleGraph) (w : World)
    → w.calls ≡ []
    → w.container.applied_overrides ≡ []
    → has (w.container.services logger_type) ≡ true
    → Keyed w.container
    → Populated g (initialize_graph g w)
unfolding initialize_graph
initialize_graph-Populated g w fresh unapplied logger keyed = by_order (preflight g (some c)) refl
  where
    c : Container
    c = w.container

    begin : Serves c [] w
    begin = record {
      ready = subst (All BuiltReady) (sym fresh) tt;
      served = λ t i. elim i [ ];
      pending = λ t i. refl;
      applied = λ t h. cc (rw unapplied at h);
      kept = λ t h. h;
    }

    by_order :
        (m : Outcome (List ProviderRegistration))
        → preflight g (some c) ≡ m
        → Populated g (
            with_order w m
              (λ order. continue (initialize_providers g order w) (register_nodes g g.nodes)))
    by_order (done order) e =
        let (ordered, all) = preflight-Ordered g (some c) order e in
        let seen = after g [] order in
        Serves-Populated g c seen
          (continue (initialize_providers g order w) (register_nodes g g.nodes)) all
          (continue-Serves g c seen seen (initialize_providers g order w) (register_nodes g g.nodes)
            (initialize_providers-Serves g c logger keyed (preflight_visibility g (some c) order e)
              order [] w ordered begin)
            (register_nodes-Serves g c seen g.nodes))
    by_order (fail x) e = begin.ready
    by_order panicked e = begin.ready
    by_order out_of_fuel e = begin.ready
