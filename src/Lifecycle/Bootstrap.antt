-- ===== src/Lifecycle/Bootstrap.antt =====
-- crates/caelix-core/src/module.rs: `bootstrap_graph` calls a bootstrap hook once.
use caelix.Prelude.{
  ℕ, ◌≡◌, refl, sym, subst, true, false, not, ◌&&◌, Bool-cases, Option, none, some, List, [], ◌∷◌,
  ◌++◌, In, In-append_cases, AllDistinct, AllDistinct-concat, ◌==◌, ==_iff, ◌⊎◌, inl, inr,
  and-eq-true,
}
use caelix.Errors.{Outcome, done, fail, panicked, out_of_fuel}
use caelix.Container.{
  ProviderValue, ProviderDef, Container, contains, was_overridden, begin_provider_bootstrap,
}
use caelix.Graph.{ModuleGraph, ProviderRegistration, def}
use caelix.Preflight.{preflight}
use caelix.Lifecycle.{
  World, Run, call, bootstrap, run_lifecycle, bootstrap_value, begin_bootstrap, bootstrap_provider,
  bootstrap_providers, continue, or_rollback, rollback_graph, return_error, with_order,
  bootstrap_graph,
}
use caelix.Lifecycle.Trace.{bootstrapped, bootstrapped_by, over_calls-call}
use caelix.Lifecycle.Live.{Live, RolledBack, Halted, Failed, rollback_graph-Failed, call-Live}

module _ (g : ModuleGraph) (ids : List ℕ) where
  -- The hooks called so far, each once, of the providers `ids` that a start initialized.
  abbrev pub Once : World → Type 0
  Once w =
      AllDistinct (bootstrapped w.calls)
      × ((t : ℕ) → In t (bootstrapped w.calls) → contains ids t ≡ true)

  record Running (w : World) : Type 0 where
    live : Live g w
    once : Once w
    marked :
        (t : ℕ) → In t (bootstrapped w.calls) → contains w.container.bootstrapped_providers t ≡ true

  -- What a bootstrap leaves: an error stops what was started.
  abbrev pub Bootstrapped : Run → Type 0
  Bootstrapped (done u, w) = Live g w × Once w
  Bootstrapped (fail e, w) = RolledBack g w × Once w
  Bootstrapped (panicked, w) = Halted g w × Once w
  Bootstrapped (out_of_fuel, w) = Halted g w × Once w

  abbrev RunningRun : Run → Type 0
  RunningRun (done u, w) = Running w
  RunningRun (fail e, w) = RolledBack g w × Once w
  RunningRun (panicked, w) = Halted g w × Once w
  RunningRun (out_of_fuel, w) = Halted g w × Once w

  continue-Running :
      (r : Run) (k : World → Run)
      → RunningRun r
      → ((w : World) → Running w → RunningRun (k w))
      → RunningRun (continue r k)
  continue-Running (done u, w) k h f = f w h
  continue-Running (fail e, w) k h f = h
  continue-Running (panicked, w) k h f = h
  continue-Running (out_of_fuel, w) k h f = h

  Running-Bootstrapped : (r : Run) → RunningRun r → Bootstrapped r
  Running-Bootstrapped (done u, w) h = (h.live, h.once)
  Running-Bootstrapped (fail e, w) h = h
  Running-Bootstrapped (panicked, w) h = h
  Running-Bootstrapped (out_of_fuel, w) h = h

  kept : (w x : World) → bootstrapped x.calls ≡ bootstrapped w.calls → Once w → Once x
  kept w x b o = subst (λ l. AllDistinct l × ((t : ℕ) → In t l → contains ids t ≡ true)) (sym b) o

  Failed-Running : (w : World) (r : Run) → Once w → Failed g w r → RunningRun r
  Failed-Running w (done u, x) o h = absurd h
  Failed-Running w (fail e, x) o (h, b) = (h, kept w x b o)
  Failed-Running w (panicked, x) o (h, b) = (inr h, kept w x b o)
  Failed-Running w (out_of_fuel, x) o (h, b) = (inr h, kept w x b o)

  or_rollback-Running :
      (r : Outcome (Unit {0})) (w : World) → Running w → RunningRun (or_rollback g (r, w))
  or_rollback-Running (done u) w h = h
  or_rollback-Running (fail e) w h =
      Failed-Running w (return_error e (rollback_graph g w)) h.once
        (rollback_graph-Failed g w h.live e)
  or_rollback-Running panicked w h = (inl h.live, h.once)
  or_rollback-Running out_of_fuel w h = (inl h.live, h.once)

  module _ (d : ProviderDef) (w : World) (h : Running w)
      (fresh : contains w.container.bootstrapped_providers d.type_id ≡ false)
      (chosen : contains ids d.type_id ≡ true) where
    abbrev begun : Container
    begun = record w.container {
      bootstrapped_providers = d.type_id ∷ w.container.bootstrapped_providers;
    }

    begun-Running : Running (record w { container = begun })
    begun-Running = record {
      live = h.live;
      once = h.once;
      marked =
          λ t i. elim (Bool-cases (d.type_id == t)) [ inl e ↦ rw e | inr e ↦ rw e (h.marked t i) ];
    }

    last_call :
        (t : ℕ)
        → In t (bootstrapped (w.calls ++ bootstrap d.type_id ∷ []))
        → In t (bootstrapped w.calls) ⊎ (t ≡ d.type_id)
    last_call t i =
        elim (In-append_cases t (bootstrapped w.calls) (d.type_id ∷ [])
          (subst (In t) (over_calls-call bootstrapped_by w.calls (bootstrap d.type_id)) i)) [
            | inl l ↦ inl l
            | inr r ↦ elim r [ inl e ↦ inr e | inr e ↦ elim e [ ] ]
          ]

    called-Running : Running (call (bootstrap d.type_id) (record w { container = begun }))
    called-Running = record {
      live = call-Live g (bootstrap d.type_id) (record w { container = begun }) refl refl h.live;
      once = (
        subst AllDistinct (sym (over_calls-call bootstrapped_by w.calls (bootstrap d.type_id))) (
            AllDistinct-concat (bootstrapped w.calls) d.type_id h.once.0
              (λ i. cc (fresh, h.marked d.type_id i))),
        (λ t i. elim (last_call t i) [
          | inl l ↦ h.once.1 t l
          | inr e ↦ subst (λ x. contains ids x ≡ true) (sym e) chosen
        ]),
      );
      marked = λ t i. elim (last_call t i) [
        | inl l ↦ begun-Running.marked t l
        | inr e ↦
            subst (λ x. contains begun.bootstrapped_providers x ≡ true) (sym e)
              (rw ((==_iff d.type_id d.type_id).1 refl))
      ];
    }

    bootstrap_value-Running :
        (v : Option ProviderValue)
        → RunningRun (or_rollback g (bootstrap_value d v (record w { container = begun })))
    bootstrap_value-Running none =
        or_rollback-Running (bootstrap_value d none (record w { container = begun })).0
          (record w { container = begun }) begun-Running
    bootstrap_value-Running (some v) =
        or_rollback-Running (run_lifecycle d "on_bootstrap" (d.bootstrap_fn v))
          (call (bootstrap d.type_id) (record w { container = begun })) called-Running

  begin_bootstrap-Running :
      (d : ProviderDef) (w : World)
      → Running w
      → contains ids d.type_id ≡ true
      → RunningRun (begin_bootstrap g d w (begin_provider_bootstrap w.container d.type_id))
  begin_bootstrap-Running d w h chosen =
      elim (Bool-cases (contains w.container.bootstrapped_providers d.type_id)) [
        | inl old ↦ rw old h
        | inr fresh ↦
            rw fresh (bootstrap_value-Running d w h fresh chosen (w.container.services d.type_id))
      ]

  bootstrap_provider-Running :
      (o : Option ProviderDef) (w : World) → Running w → RunningRun (bootstrap_provider g ids o w)
  bootstrap_provider-Running none w h = (inl h.live, h.once)
  bootstrap_provider-Running (some d) w h =
      let chosen = contains ids d.type_id in
      let kept = not (was_overridden w.container d.type_id) in
      elim (Bool-cases (chosen && kept)) [
        | inl go ↦ rw go (begin_bootstrap-Running d w h (and-eq-true chosen kept go).0)
        | inr skip ↦ rw skip h
      ]

  bootstrap_providers-Running :
      (rs : List ProviderRegistration) (w : World)
      → Running w
      → RunningRun (bootstrap_providers g ids rs w)
  unfolding bootstrap_providers
  bootstrap_providers-Running [] w h = h
  bootstrap_providers-Running (r ∷ rs) w h =
      continue-Running (bootstrap_provider g ids (def g r) w) (bootstrap_providers g ids rs)
        (bootstrap_provider-Running (def g r) w h) (bootstrap_providers-Running rs)

-- What `bootstrap_graph` leaves: its own `preflight` fails before anything is called.
abbrev pub Ends : ModuleGraph → World → Run → Type 0
Ends g w (done u, x) = Live g x × Once g w.container.initialized_providers x
Ends g w (fail e, x) =
    (RolledBack g x × Once g w.container.initialized_providers x)
    ⊎ ((preflight g (some w.container) ≡ fail e) × (x ≡ w))
Ends g w (panicked, x) = Halted g x × Once g w.container.initialized_providers x
Ends g w (out_of_fuel, x) = Halted g x × Once g w.container.initialized_providers x

module _ (g : ModuleGraph) (w : World) (live : Live g w)
    (none_yet : bootstrapped w.calls ≡ []) where
  abbrev initialized : List ℕ
  initialized = w.container.initialized_providers

  start : Running g initialized w
  start =
      let nowhere : (t : ℕ) → In t (bootstrapped w.calls) → ⊥ = λ t i. subst (In t) none_yet i in
      record {
        live = live;
        once = (subst AllDistinct (sym none_yet) tt, (λ t i. absurd (nowhere t i)));
        marked = λ t i. absurd (nowhere t i);
      }

  walk :
      (order : List ProviderRegistration)
      → Bootstrapped g initialized (bootstrap_providers g initialized order w)
  walk order =
      Running-Bootstrapped g initialized (bootstrap_providers g initialized order w)
        (bootstrap_providers-Running g initialized order w start)

  pub bootstrap_graph-Bootstrapped :
      (order : List ProviderRegistration)
      → preflight g (some w.container) ≡ done order
      → Bootstrapped g initialized (bootstrap_graph g w)
  unfolding bootstrap_graph
  bootstrap_graph-Bootstrapped order e =
      subst
        (λ m.
          Bootstrapped g initialized (with_order w m (λ o. bootstrap_providers g initialized o w)))
        (sym e) (walk order)
