-- ===== src/Lifecycle/Live.antt =====
-- crates/caelix-core/src/module.rs: what a start remembers, and what a rollback of it stops.
use caelix.Prelude.{
  ℕ, ◌≡◌, refl, sym, ap, ◌∙◌, true, false, Bool-cases, Option, none, some, List, [], ◌∷◌, ◌++◌, All,
  All-append, ◌==◌, ==_iff, ◌⊎◌, inl, inr,
}
use mathlib.Core.List.{reverse, append-nil}
use caelix.Errors.{HttpException, Outcome, done, fail, panicked, out_of_fuel}
use caelix.Container.{ProviderValue, ProviderDef, Container, register_erased, scoped_for_provider}
use caelix.Graph.{ModuleGraph, ProviderRegistration, def}
use caelix.Graph.Complete.{def_by_type_finds}
use caelix.Visibility.{or_declared}
use caelix.Lifecycle.{
  Call, build, init, World, Run, call, with_container, succeeded, run_lifecycle, after_init,
  after_build, take_override, build_provider, continue, rollback_graph, return_error, rollback_each,
}
use caelix.Lifecycle.Trace.{
  started, stopped, started_by, stopped_by, over_calls-call, All-reverse_aux, Available,
  rollback_each-Rolled, Kept, Rolled, bootstrapped,
}

module _ (g : ModuleGraph) where
  -- The container remembers what was started, nothing is stopped, and the hooks can be called.
  abbrev pub Live : World → Type 0
  Live w =
      (started w.calls ≡ w.container.initialized_providers)
      × (stopped w.calls ≡ [])
      × All (Available g w.container) w.container.initialized_providers

  abbrev pub RolledBack : World → Type 0
  RolledBack w =
      (stopped w.calls ≡ reverse (started w.calls)) × (w.container.initialized_providers ≡ [])

  -- A rollback that a panic of a shutdown hook ended behind some of the hooks.
  abbrev pub Interrupted : World → Type 0
  Interrupted w =
      ((rest : List ℕ) × (stopped w.calls ++ rest ≡ reverse (started w.calls)))
      × (w.container.initialized_providers ≡ [])

  -- What a panic of user code leaves: it stops nothing, unless it is in a rollback.
  abbrev pub Halted : World → Type 0
  Halted w = Live w ⊎ Interrupted w

  -- What a run leaves.
  abbrev pub Settled : Run → Type 0
  Settled (done u, w) = Live w
  Settled (fail e, w) = RolledBack w
  Settled (panicked, w) = Halted w
  Settled (out_of_fuel, w) = Halted w

  -- What an error in the world `w` leaves: the rollback calls no bootstrap hook.
  abbrev pub Failed : World → Run → Type 0
  Failed w (done u, x) = ⊥
  Failed w (fail e, x) = RolledBack x × (bootstrapped x.calls ≡ bootstrapped w.calls)
  Failed w (panicked, x) = Interrupted x × (bootstrapped x.calls ≡ bootstrapped w.calls)
  Failed w (out_of_fuel, x) = Interrupted x × (bootstrapped x.calls ≡ bootstrapped w.calls)

  pub Failed-Settled : (w : World) (r : Run) → Failed w r → Settled r
  Failed-Settled w (done u, x) h = absurd h
  Failed-Settled w (fail e, x) h = h.0
  Failed-Settled w (panicked, x) h = inr h.0
  Failed-Settled w (out_of_fuel, x) h = inr h.0

  -- The world behind `take_initialized_providers`.
  abbrev taken : World → World
  taken w = record w { container = record w.container { initialized_providers = [] } }

  module _ (w : World) (l : Live w) where
    abbrev ids : List ℕ
    ids = w.container.initialized_providers

    stops :
        (x : World) → Kept (taken w) x → stopped w.calls ++ reverse ids ≡ reverse (started x.calls)
    stops x (c, i, b) = ap (λ l. l ++ reverse ids) l.1 ∙ ap reverse (sym l.0) ∙ ap reverse (sym i)

    Rolled-Failed :
        (e : HttpException) (r : Run)
        → Rolled (reverse ids) (taken w) r
        → Failed w (return_error e r)
    Rolled-Failed e (done u, x) ((c, i, b), s) =
        ((s ∙ stops x (c, i, b), ap (λ x. x.initialized_providers) c), b)
    Rolled-Failed e (fail f, x) h = absurd h
    Rolled-Failed e (panicked, x) ((c, i, b), (rest, s)) =
        (((rest, s ∙ stops x (c, i, b)), ap (λ x. x.initialized_providers) c), b)
    Rolled-Failed e (out_of_fuel, x) ((c, i, b), (rest, s)) =
        (((rest, s ∙ stops x (c, i, b)), ap (λ x. x.initialized_providers) c), b)

    pub rollback_graph-Failed : (e : HttpException) → Failed w (return_error e (rollback_graph g w))
    unfolding rollback_graph
    rollback_graph-Failed e = Rolled-Failed e (rollback_each g (reverse ids) (taken w)) (
        rollback_each-Rolled g (reverse ids) (taken w)
          (All-reverse_aux (Available g w.container) ids [] l.2 tt))

    pub rollback_graph-Settled : (e : HttpException) → Settled (return_error e (rollback_graph g w))
    rollback_graph-Settled e =
        Failed-Settled w (return_error e (rollback_graph g w)) (rollback_graph-Failed e)

  pub continue-Settled :
      (r : Run) (k : World → Run)
      → Settled r
      → ((w : World) → Live w → Settled (k w))
      → Settled (continue r k)
  continue-Settled (done u, w) k h f = f w h
  continue-Settled (fail e, w) k h f = h
  continue-Settled (panicked, w) k h f = h
  continue-Settled (out_of_fuel, w) k h f = h

  -- A call that starts and stops nothing.
  pub call-Live :
      (c : Call) (w : World) → started_by c ≡ [] → stopped_by c ≡ [] → Live w → Live (call c w)
  call-Live c w e e' (b, s, a) = (
    over_calls-call started_by w.calls c ∙ ap (λ l. started w.calls ++ l) e ∙ append-nil _ ∙ b,
    over_calls-call stopped_by w.calls c ∙ ap (λ l. stopped w.calls ++ l) e' ∙ append-nil _ ∙ s,
    a,
  )

  Available-update :
      (c : Container) (k : ℕ) (v : ProviderValue) (t : ℕ)
      → Available g c t
      → Available g (register_erased c k v) t
  Available-update c k v t (d, u, f, e, h) = elim (Bool-cases (k == t)) [
    | inl same ↦ (d, v, f, e, rw same)
    | inr other ↦ (d, u, f, e, rw other h)
  ]

  All-Available-update :
      (c : Container) (k : ℕ) (v : ProviderValue) (ts : List ℕ)
      → All (Available g c) ts
      → All (Available g (register_erased c k v)) ts
  All-Available-update c k v [] h = tt
  All-Available-update c k v (t ∷ ts) (p, h) =
      (Available-update c k v t p, All-Available-update c k v ts h)

  register-Live :
      (w : World) (k : ℕ) (v : ProviderValue)
      → Live w
      → Live (with_container (λ c. register_erased c k v) w)
  register-Live w k v (b, s, a) = (b, s, All-Available-update w.container k v _ a)

  -- A value is registered, and its init hook is called.
  abbrev hooked : Call → ℕ → ProviderValue → World → World
  hooked c k v w = call c (with_container (λ x. register_erased x k v) w)

  hooked-Live :
      (c : Call) (k : ℕ) (v : ProviderValue) (w : World)
      → started_by c ≡ []
      → stopped_by c ≡ []
      → Live w
      → Live (hooked c k v w)
  hooked-Live c k v w e e' h =
      call-Live c (with_container (λ x. register_erased x k v) w) e e' (register-Live w k v h)

  hooked-Settled :
      (e : HttpException) (c : Call) (k : ℕ) (v : ProviderValue) (w : World)
      → started_by c ≡ []
      → stopped_by c ≡ []
      → Live w
      → Settled (return_error e (rollback_graph g (hooked c k v w)))
  hooked-Settled x c k v w e e' h =
      rollback_graph-Settled (hooked c k v w) (hooked-Live c k v w e e' h) x

  module _ (declared : ProviderDef) (r : ProviderRegistration)
      (found : def g r ≡ some declared) where
    registered :
        (c : Container) (v : ProviderValue)
        → Available g (register_erased c declared.type_id v) declared.type_id
    registered c v =
        let (d, f, e) = def_by_type_finds g r declared found in
        (d, v, f, e, rw ((==_iff declared.type_id declared.type_id).1 refl))

    -- Behind an init hook, of a declared provider and of an override.
    after_init-declared :
        (ok : Outcome (Unit {0})) (w : World) (v : ProviderValue)
        → Live w
        → Settled (
            after_init g declared none
              (hooked (init false declared.type_id (succeeded ok)) declared.type_id v w)
              (run_lifecycle declared "on_module_init" ok))
    after_init-declared (done u) w v h =
        let (b, s, a) = register-Live w declared.type_id v h in
        let ids = w.container.initialized_providers in
        (
          over_calls-call started_by w.calls _ ∙ ap (λ l. l ++ declared.type_id ∷ []) b,
          over_calls-call stopped_by w.calls _ ∙ append-nil _ ∙ s,
          All-append _ ids (declared.type_id ∷ []) a (registered w.container v, tt),
        )
    after_init-declared (fail e) w v h =
        hooked-Settled _ (init false declared.type_id false) declared.type_id v w refl refl h
    after_init-declared panicked w v h =
        inl (hooked-Live (init false declared.type_id false) declared.type_id v w refl refl h)
    after_init-declared out_of_fuel w v h =
        inl (hooked-Live (init false declared.type_id false) declared.type_id v w refl refl h)

    after_init-override :
        (o : ProviderDef) (ok : Outcome (Unit {0})) (w : World) (v : ProviderValue)
        → Live w
        → Settled (
            after_init g declared
              (some o)
              (hooked (init true o.type_id (succeeded ok)) o.type_id v w)
              (run_lifecycle o "on_module_init" ok))
    after_init-override o (done u) w v h =
        hooked-Live (init true o.type_id true) o.type_id v w refl refl h
    after_init-override o (fail e) w v h =
        hooked-Settled _ (init true o.type_id false) o.type_id v w refl refl h
    after_init-override o panicked w v h =
        inl (hooked-Live (init true o.type_id false) o.type_id v w refl refl h)
    after_init-override o out_of_fuel w v h =
        inl (hooked-Live (init true o.type_id false) o.type_id v w refl refl h)

    take-Live :
        (over : Option ProviderDef) (w : World)
        → Live w
        → Live (with_container (take_override declared over) w)
    take-Live none w h = h
    take-Live (some o) w h = h

    after_build-Settled :
        (over : Option ProviderDef) (w : World) (b : Outcome ProviderValue)
        → Live w
        → Settled (after_build g declared over w b)
    after_build-Settled none w (done v) h = after_init-declared (declared.init_fn v) w v h
    after_build-Settled (some o) w (done v) h = after_init-override o (o.init_fn v) w v h
    after_build-Settled over w (fail e) h = rollback_graph-Settled w h e
    after_build-Settled over w panicked h = inl h
    after_build-Settled over w out_of_fuel h = inl h

    pub build_provider-Settled :
        (over : Option ProviderDef) (w : World)
        → Live w
        → Settled (build_provider g declared over w)
    build_provider-Settled over w h =
        let w1 = with_container (take_override declared over) w in
        let eff = or_declared over declared in
        let c = build eff (scoped_for_provider w1.container eff.type_name eff.dependencies) in
        after_build-Settled over (call c w1)
          (eff.build (scoped_for_provider w1.container eff.type_name eff.dependencies))
          (call-Live c w1 refl refl (take-Live over w h))
