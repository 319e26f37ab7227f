-- ===== src/Lifecycle/Building.antt =====
-- crates/caelix-core/src/module.rs: one round of `initialize_graph` serves the provider's type.
use caelix.Prelude.{
  ℕ, ◌≡◌, refl, sym, subst, ◌∙◌, inl, inr, true, ◌||◌, Bool-cases, Option, none, some, List, [],
  ◌∷◌, All, All-append, In, ◌==◌, ==_iff, or-eq-true,
}
use caelix.Errors.{Outcome, done, fail, panicked, out_of_fuel}
use caelix.Container.{
  ProviderValue, ProviderDef, ProviderDependency, Container, update, has, logger_type,
  contains_type_id, was_overridden, find_override, remove_override, pending_override,
  mark_provider_declared, register_erased, scoped_for_provider,
}
use caelix.Graph.{ModuleGraph}
use caelix.Visibility.{or_declared, effective}
use caelix.Schedule.Sequence.{Behind}
use caelix.Preflight.Guarantees.{provided, DependencyOk}
use caelix.Lifecycle.{
  Call, build, init, World, Run, call, with_container, succeeded, run_lifecycle, after_init,
  after_build, take_override, build_provider, initialize_provider, continue,
}
use caelix.Lifecycle.Serving.{
  BuiltReady, AllReady, Keyed, find_override-remove_override, has-update, has-update_self,
  rollback_graph-ServesRun, Serves, ServesRun,
}

module _ (g : ModuleGraph) (c : Container) where
  pub continue-Serves :
      (seen seen' : List ℕ) (r : Run) (k : World → Run)
      → ServesRun c seen r
      → ((w : World) → Serves c seen w → ServesRun c seen' (k w))
      → ServesRun c seen' (continue r k)
  continue-Serves seen seen' (done u, w) k h f = f w h
  continue-Serves seen seen' (fail e, w) k h f = h
  continue-Serves seen seen' (panicked, w) k h f = h
  continue-Serves seen seen' (out_of_fuel, w) k h f = h

  -- The dependencies that `preflight` accepted and that stand before are in the container.
  dependencies-ready :
      (index : ℕ) (seen : List ℕ) (w : World) (deps : List ProviderDependency)
      → has (c.services logger_type) ≡ true
      → Serves c seen w
      → All (DependencyOk g (some c) index) deps
      → Behind g (some c) (λ t. In t (provided g)) seen deps
      → All (λ dep. has (w.container.services dep.type_id) ≡ true) deps
  dependencies-ready index seen w [] l s ok b = tt
  dependencies-ready index seen w (dep ∷ deps) l s (o, ok) (p, b) =
      let rest = dependencies-ready index seen w deps l s ok b in
      elim o [
        | inl logger ↦ (
          subst (λ t. has (w.container.services t) ≡ true) (sym logger) (s.kept logger_type l),
          rest,
        )
        | inr (inl (i, v)) ↦ (s.served dep.type_id (p i), rest)
        | inr (inr (i, present)) ↦ (s.kept dep.type_id present, rest)
      ]

  module _ (declared : ProviderDef) (seen : List ℕ) where
    abbrev seen' : List ℕ
    seen' = declared.type_id ∷ seen

    after_init-Serves :
        (eff : ProviderDef) (over : Option ProviderDef) (r : Outcome (Unit {0})) (w : World)
        → Serves c seen' w
        → ServesRun c seen' (after_init g declared over w (run_lifecycle eff "on_module_init" r))
    after_init-Serves eff none (done u) w s = record {
      ready = s.ready;
      served = s.served;
      pending = s.pending;
      applied = s.applied;
      kept = s.kept;
    }
    after_init-Serves eff (some o) (done u) w s = s
    after_init-Serves eff over (fail e) w s = rollback_graph-ServesRun g c seen' _ w s.ready
    after_init-Serves eff over panicked w s = s.ready
    after_init-Serves eff over out_of_fuel w s = s.ready

    -- What holds between the choice of an override and the registration of the value.
    record Taken (w : World) : Type 0 where
      ready : AllReady w
      served : (t : ℕ) → In t seen → has (w.container.services t) ≡ true
      pending : (t : ℕ) → (In t seen' → ⊥) → pending_override w.container t ≡ pending_override c t
      applied : (t : ℕ) → was_overridden w.container t ≡ true → In t seen'
      kept : (t : ℕ) → has (c.services t) ≡ true → has (w.container.services t) ≡ true

    register-Serves :
        (k : ℕ) (v : ProviderValue) (i : Call) (w : World)
        → k ≡ declared.type_id
        → BuiltReady i
        → Taken w
        → Serves c seen' (call i (with_container (λ x. register_erased x k v) w))
    register-Serves k v i w e ri s = record {
      ready = All-append BuiltReady w.calls _ s.ready (ri, tt);
      served = λ t h. elim h [
        | inl here ↦
            subst (λ x. has (update w.container.services k v x) ≡ true) (e ∙ sym here)
              (has-update_self w.container.services k v)
        | inr there ↦ has-update w.container.services k v t (s.served t there)
      ];
      pending = s.pending;
      applied = s.applied;
      kept = λ t h. has-update w.container.services k v t (s.kept t h);
    }

    after_build-Serves :
        (over : Option ProviderDef) (w : World) (r : Outcome ProviderValue)
        → (or_declared over declared).type_id ≡ declared.type_id
        → Taken w
        → ServesRun c seen' (after_build g declared over w r)
    after_build-Serves over w (done v) e s =
        let eff = or_declared over declared in
        let i = init (has over) eff.type_id (succeeded (eff.init_fn v)) in
        after_init-Serves eff over (eff.init_fn v) _ (register-Serves eff.type_id v i w e tt s)
    after_build-Serves over w (fail x) e s = rollback_graph-ServesRun g c seen' x w s.ready
    after_build-Serves over w panicked e s = s.ready
    after_build-Serves over w out_of_fuel e s = s.ready

    removed :
        (w : World) (t : ℕ)
        → Serves c seen w
        → (In t seen' → ⊥)
        → find_override (remove_override w.container.pending_overrides declared.type_id) t
          ≡ pending_override c t
    removed w t s h =
        find_override-remove_override w.container.pending_overrides declared.type_id t
          (λ e. h (inl (sym e)))
        ∙ s.pending t (λ i. h (inr i))

    take-Taken :
        (over : Option ProviderDef) (w : World) (b : Call)
        → Serves c seen w
        → BuiltReady b
        → Taken (call b (with_container (take_override declared over) w))
    take-Taken none w b s rb = record {
      ready = All-append BuiltReady w.calls _ s.ready (rb, tt);
      served = s.served;
      pending = λ t h. removed w t s h;
      applied = λ t h. inr (s.applied t h);
      kept = s.kept;
    }
    take-Taken (some o) w b s rb = record {
      ready = All-append BuiltReady w.calls _ s.ready (rb, tt);
      served = s.served;
      pending = λ t h. removed w t s h;
      applied = λ t h. elim (or-eq-true (declared.type_id == t) _ h) [
        | inl e ↦ inl (sym ((==_iff declared.type_id t).0 e))
        | inr e ↦ inr (s.applied t e)
      ];
      kept = s.kept;
    }

    services-take_override :
        (over : Option ProviderDef) (x : Container)
        → (take_override declared over x).services ≡ x.services
    services-take_override none x = refl
    services-take_override (some o) x = refl

    build_provider-Serves :
        (index : ℕ) (over : Option ProviderDef) (w : World)
        → has (c.services logger_type) ≡ true
        → Keyed c
        → over ≡ pending_override c declared.type_id
        → All (DependencyOk g (some c) index) (effective (some c) declared).dependencies
        → Behind g (some c) (λ t. In t (provided g)) seen (effective (some c) declared).dependencies
        → Serves c seen w
        → ServesRun c seen' (build_provider g declared over w)
    build_provider-Serves index over w l keyed e ok behind s =
        let eff = or_declared over declared in
        let w1 = with_container (take_override declared over) w in
        let scoped = scoped_for_provider w1.container eff.type_name eff.dependencies in
        let seen_deps : All (λ dep. has (w1.container.services dep.type_id) ≡ true)
            eff.dependencies =
          subst (λ m. All (λ dep. has (m dep.type_id) ≡ true) eff.dependencies)
            (sym (services-take_override over w.container))
            (dependencies-ready index seen w eff.dependencies l s
              (subst
                (λ o. All (DependencyOk g (some c) index) (or_declared o declared).dependencies)
                (sym e) ok)
              (subst
                (λ o.
                  Behind g (some c) (λ t. In t (provided g)) seen
                    (or_declared o declared).dependencies)
                (sym e) behind)) in
        after_build-Serves over (call (build eff scoped) w1) (eff.build scoped) (same_type over e)
          (take-Taken over w (build eff scoped) s seen_deps)
      where
        same_type :
            (o : Option ProviderDef)
            → o ≡ pending_override c declared.type_id
            → (or_declared o declared).type_id ≡ declared.type_id
        same_type none h = refl
        same_type (some o) h = keyed declared.type_id o (sym h)

    -- A provider whose value is there is not built.
    skip-Serves :
        (w : World)
        → has (w.container.services declared.type_id) ≡ true
        → Serves c seen w
        → Serves c seen' w
    skip-Serves w h s = record {
      ready = s.ready;
      served = λ t i. elim i [
        | inl here ↦ subst (λ x. has (w.container.services x) ≡ true) (sym here) h
        | inr there ↦ s.served t there
      ];
      pending = λ t i. s.pending t (λ j. i (inr j));
      applied = λ t i. inr (s.applied t i);
      kept = s.kept;
    }

    declared-Serves :
        (w : World)
        → Serves c seen w
        → Serves c seen (with_container (λ x. mark_provider_declared x declared.type_id) w)
    declared-Serves w s = record {
      ready = s.ready;
      served = s.served;
      pending = s.pending;
      applied = s.applied;
      kept = s.kept;
    }

    pub initialize_provider-Serves :
        (index : ℕ) (w : World)
        → has (c.services logger_type) ≡ true
        → Keyed c
        → (In declared.type_id seen → ⊥)
        → All (DependencyOk g (some c) index) (effective (some c) declared).dependencies
        → Behind g (some c) (λ t. In t (provided g)) seen (effective (some c) declared).dependencies
        → Serves c seen w
        → ServesRun c seen' (initialize_provider g (some declared) w)
    initialize_provider-Serves index w l keyed fresh ok behind s =
        let w1 = with_container (λ x. mark_provider_declared x declared.type_id) w in
        let here = contains_type_id w.container declared.type_id in
        let replaced = was_overridden w.container declared.type_id in
        elim (Bool-cases (here || replaced)) [
          | inl skip ↦ elim (or-eq-true here replaced skip) [
            | inl h ↦ rw skip (skip-Serves w1 h (declared-Serves w s))
            | inr h ↦ absurd (fresh (s.applied declared.type_id h))
          ]
          | inr go ↦ rw go (
              build_provider-Serves index (pending_override w.container declared.type_id) w1 l keyed
                (s.pending declared.type_id fresh) ok behind (declared-Serves w s))
        ]
