-- ===== src/Lifecycle/Stop.antt =====
-- crates/caelix-core/src/module.rs: `shutdown_module` behind a start.
use caelix.Prelude.{
  ℕ, ◌≡◌, refl, sym, ap, subst, ◌∙◌, Option, none, some, List, [], ◌∷◌, ◌++◌, map, All,
}
use mathlib.Core.List.{reverse, append-nil}
use caelix.Errors.{HttpException, Outcome, done, fail, panicked, out_of_fuel}
use caelix.Container.{ProviderValue, ProviderDef}
use caelix.Graph.{ModuleGraph, def_by_type}
use caelix.Lifecycle.{
  World, call, shutdown, shut_down, shut_down_def, shut_down_value, initialize_graph, note_error,
  or_done, Run, shutdown_each, shutdown_graph,
}
use caelix.Lifecycle.Trace.{
  started, stopped, stopped_by, over_calls-call, All-reverse_aux, Available, shut_down-call,
  stopped-call,
}
use caelix.Lifecycle.Live.{Live, Settled}
use caelix.Lifecycle.Rollback.{initialize_graph-Settled}

-- The first result that is not a success, of a list of results.
abbrev pub first_failure : List (Outcome (Unit {0})) → Outcome (Unit {0})
first_failure [] = done tt
first_failure (done u ∷ rs) = first_failure rs
first_failure (fail e ∷ rs) = fail e
first_failure (panicked ∷ rs) = panicked
first_failure (out_of_fuel ∷ rs) = out_of_fuel

-- A panic of a hook, else the result given.
abbrev pub panic_or : List (Outcome (Unit {0})) → Outcome (Unit {0}) → Outcome (Unit {0})
panic_or [] r = r
panic_or (done u ∷ rs) r = panic_or rs r
panic_or (fail e ∷ rs) r = panic_or rs r
panic_or (panicked ∷ rs) r = panicked
panic_or (out_of_fuel ∷ rs) r = out_of_fuel

-- The types up to the first one whose hook panics.
abbrev pub until_panic : List ℕ → List (Outcome (Unit {0})) → List ℕ
until_panic [] rs = []
until_panic (t ∷ ts) [] = t ∷ ts
until_panic (t ∷ ts) (done u ∷ rs) = t ∷ until_panic ts rs
until_panic (t ∷ ts) (fail e ∷ rs) = t ∷ until_panic ts rs
until_panic (t ∷ ts) (panicked ∷ rs) = t ∷ []
until_panic (t ∷ ts) (out_of_fuel ∷ rs) = t ∷ []

-- The results of the shutdown hooks of the types, in a world.
abbrev pub hook_results : ModuleGraph → List ℕ → World → List (Outcome (Unit {0}))
hook_results g ts w = map (λ t. (shut_down g t w).0) ts

-- A shutdown behind the start that left `w`, and a second one.
abbrev pub ShutDown : ModuleGraph → World → Type 0
ShutDown g w =
    let ts = reverse (started w.calls) in
    let rs = hook_results g ts w in
    let once = shutdown_graph g w in
    let twice = shutdown_graph g once.1 in
    (once.0 ≡ panic_or rs (first_failure rs))
    × (stopped once.1.calls ≡ until_panic ts rs)
    × (twice.0 ≡ done tt)
    × (stopped twice.1.calls ≡ stopped once.1.calls)

module _ (g : ModuleGraph) where
  -- The result of a hook depends on the values only.
  shut_down-result :
      (t : ℕ) (w x : World)
      → w.container.services ≡ x.container.services
      → (shut_down g t w).0 ≡ (shut_down g t x).0
  unfolding shut_down
  shut_down-result t w x e = by_def (def_by_type g t)
    where
      by_value :
          (d : ProviderDef) (v : Option ProviderValue)
          → (shut_down_value d v w).0 ≡ (shut_down_value d v x).0
      by_value d none = refl
      by_value d (some v) = refl

      by_def : (o : Option ProviderDef) → (shut_down_def o w).0 ≡ (shut_down_def o x).0
      by_def none = refl
      by_def (some d) =
          by_value d (w.container.services d.type_id)
          ∙ ap (λ m. (shut_down_value d (m d.type_id) x).0) e

  hook_results-services :
      (ts : List ℕ) (w x : World)
      → w.container.services ≡ x.container.services
      → hook_results g ts w ≡ hook_results g ts x
  hook_results-services [] w x e = refl
  hook_results-services (t ∷ ts) w x e =
      ap (λ r. r ∷ hook_results g ts w) (shut_down-result t w x e)
      ∙ ap (λ l. (shut_down g t x).0 ∷ l) (hook_results-services ts w x e)

  -- What a shutdown of `ts` behind `w` leaves, where the hooks have the results `rs`.
  abbrev Shut : List ℕ → List (Outcome (Unit {0})) → Option HttpException → World → Run → Type 0
  Shut ts rs first w x =
      (x.0 ≡ panic_or rs (first_failure (or_done first ∷ rs)))
      × (x.1.container ≡ w.container)
      × (stopped x.1.calls ≡ stopped w.calls ++ until_panic ts rs)

  note_error-Shut :
      (t : ℕ) (ts : List ℕ) (rs : List (Outcome (Unit {0}))) (first : Option HttpException)
      (w : World) (r : Outcome (Unit {0})) (k : Option HttpException → World → Run)
      → ((f : Option HttpException)
          → Shut ts rs f (call (shutdown t) w) (k f (call (shutdown t) w)))
      → Shut (t ∷ ts) (r ∷ rs) first w (note_error first (r, call (shutdown t) w) k)
  note_error-Shut t ts rs none w (done u) k h =
      let (e, c, s) = h none in (e, c, s ∙ stopped-call t (until_panic ts rs) w)
  note_error-Shut t ts rs (some x) w (done u) k h =
      let (e, c, s) = h (some x) in (e, c, s ∙ stopped-call t (until_panic ts rs) w)
  note_error-Shut t ts rs none w (fail e) k h =
      let (p, c, s) = h (some e) in (p, c, s ∙ stopped-call t (until_panic ts rs) w)
  note_error-Shut t ts rs (some x) w (fail e) k h =
      let (p, c, s) = h (some x) in (p, c, s ∙ stopped-call t (until_panic ts rs) w)
  note_error-Shut t ts rs first w panicked k h =
      (refl, refl, over_calls-call stopped_by w.calls (shutdown t))
  note_error-Shut t ts rs first w out_of_fuel k h =
      (refl, refl, over_calls-call stopped_by w.calls (shutdown t))

  nothing_left : (first : Option HttpException) → or_done first ≡ first_failure (or_done first ∷ [])
  nothing_left none = refl
  nothing_left (some e) = refl

  shutdown_each-Shut :
      (ts : List ℕ) (first : Option HttpException) (w : World)
      → All (Available g w.container) ts
      → Shut ts (hook_results g ts w) first w (shutdown_each g ts first w)
  unfolding shutdown_each
  shutdown_each-Shut [] first w h = (nothing_left first, refl, sym (append-nil _))
  shutdown_each-Shut (t ∷ ts) first w (a, h) =
      let w1 = call (shutdown t) w in
      let rs = hook_results g ts w in
      let r = (shut_down g t w).0 in
      subst (λ x. Shut (t ∷ ts) (r ∷ rs) first w (note_error first (r, x) (shutdown_each g ts)))
        (sym (shut_down-call g t w a))
        (note_error-Shut t ts rs first w r (shutdown_each g ts) (λ f.
          subst (λ l. Shut ts l f w1 (shutdown_each g ts f w1)) (hook_results-services ts w1 w refl)
            (shutdown_each-Shut ts f w1 h)))

-- Nothing is left to shut down.
shutdown_graph-again :
    (g : ModuleGraph) (w : World)
    → w.container.initialized_providers ≡ []
    → (shutdown_graph g w).0 ≡ done tt × (stopped (shutdown_graph g w).1.calls ≡ stopped w.calls)
unfolding shutdown_graph shutdown_each
shutdown_graph-again g w e = rw (e, shutdown_each) (refl, refl)

-- Behind a start that succeeded, `shutdown_module` calls the shutdown hooks of the providers that the
-- start initialized, in reverse order: all of them, each also behind an error, or, if a hook panics,
-- those up to the first one that does. Its result is that panic, else the error of the first hook that
-- fails, else a success. A second shutdown calls no hook and succeeds.
pub start_then_shutdown :
    (g : ModuleGraph) (w w' : World)
    → w.calls ≡ []
    → w.container.initialized_providers ≡ []
    → initialize_graph g w ≡ (done tt, w')
    → ShutDown g w'
unfolding shutdown_graph
start_then_shutdown g w w' fresh empty e =
    let (b, s, a) : Live g w' = subst (Settled g) e (initialize_graph-Settled g w fresh empty) in
    let ids = w'.container.initialized_providers in
    let w1 : World = record w' { container = record w'.container { initialized_providers = [] } } in
    let (r, c, t) =
      subst (λ l. Shut g (reverse ids) l none w1 (shutdown_each g (reverse ids) none w1))
        (hook_results-services g (reverse ids) w1 w' refl)
        (shutdown_each-Shut g (reverse ids) none w1
          (All-reverse_aux (Available g w'.container) ids [] a tt)) in
    let stops = t ∙ ap (λ l. l ++ until_panic (reverse ids) (hook_results g (reverse ids) w')) s in
    let (again, more) =
      shutdown_graph-again g (shutdown_each g (reverse ids) none w1).1
        (ap (λ x. x.initialized_providers) c) in
    let by_start : (P : List ℕ → Type 0) → P ids → P (started w'.calls) =
      λ P p. subst P (sym b) p in
    (
      by_start
          (λ l.
            (shutdown_graph g w').0
            ≡ panic_or (hook_results g (reverse l) w')
                (first_failure (hook_results g (reverse l) w')))
          r,
      by_start
          (λ l.
            stopped (shutdown_graph g w').1.calls
            ≡ until_panic (reverse l) (hook_results g (reverse l) w'))
          stops,
      again,
      more,
    )
