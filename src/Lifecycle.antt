-- ===== src/Lifecycle.antt =====
-- crates/caelix-core/src/module.rs: `initialize_graph`, `bootstrap_graph`, `rollback_graph`,
-- `shutdown_module`. A run of the lifecycle changes a `World`: the container, the handlers that are
-- registered on the event bus, and the trace of the calls of user code, which no code reads.
-- User code is a function of its arguments; its effects on other things are not modelled.
pub mod Trace
pub mod Live
pub mod Rollback
pub mod Serving
pub mod Building
pub mod Ready
pub mod Stop
pub mod Bootstrap
use caelix.Prelude.{
  ℕ, String, Bool, true, false, not, ◌&&◌, ◌||◌, Option, none, some, List, [], ◌∷◌, ◌++◌,
  if◌then◌else◌,
}
use mathlib.Core.List.{reverse}
use caelix.Errors.{
  HttpException, hook_failed, missing_during, Outcome, done, fail, panicked, out_of_fuel,
  startup_error, ◌>>=◌,
}
use caelix.Container.{
  ProviderValue, ProviderDef, Scoped, Container, has, contains, event_bus_type, register_erased,
  resolve_erased, contains_type_id, pending_override, drop_pending_override, mark_override_applied,
  was_overridden, mark_provider_declared, begin_provider_bootstrap, record_initialized_provider,
  take_initialized_providers, scoped_for_provider, resolve,
}
use caelix.Metadata.{EventHandlerDef}
use caelix.Graph.{ModuleNode, ModuleGraph, ProviderRegistration, def, def_by_type}
use caelix.Visibility.{or_declared}
use caelix.Preflight.{preflight}

-- A call of a constructor with what it sees, or of a hook.
pub data Call : Type 0 where
  build : ProviderDef → Scoped → Call
  init : (overridden : Bool) → ℕ → (succeeded : Bool) → Call
  bootstrap : ℕ → Call
  shutdown : ℕ → Call

pub record World : Type 0 where
  pub container : Container
  pub bus : List (ℕ × ProviderValue)
  pub calls : List Call

abbrev pub call : Call → World → World
call c w = record w { calls = w.calls ++ c ∷ [] }

abbrev pub with_container : (Container → Container) → World → World
with_container f w = record w { container = f w.container }

abbrev pub Run : Type 0
Run = Outcome (Unit {0}) × World

-- `run_lifecycle` wraps the error of a hook.
abbrev pub run_lifecycle : ProviderDef → String → Outcome (Unit {0}) → Outcome (Unit {0})
run_lifecycle d hook (done u) = done u
run_lifecycle d hook (fail e) =
    fail (startup_error (hook_failed hook d.type_name e.error e.message))
run_lifecycle d hook panicked = panicked
run_lifecycle d hook out_of_fuel = out_of_fuel

abbrev pub succeeded {ℓ} : {A : Type ℓ} → Outcome A → Bool
succeeded (done a) = true
succeeded (fail e) = false
succeeded panicked = false
succeeded out_of_fuel = false

-- `run_lifecycle_from_container`, with the shutdown hook.
abbrev pub shut_down_value : ProviderDef → Option ProviderValue → World → Run
shut_down_value d none w = (fail (startup_error (missing_during "on_shutdown" d.type_name)), w)
shut_down_value d (some v) w =
    (run_lifecycle d "on_shutdown" (d.shutdown_fn v), call (shutdown d.type_id) w)

abbrev pub shut_down_def : Option ProviderDef → World → Run
shut_down_def none w = (done tt, w)
shut_down_def (some d) w = shut_down_value d (resolve_erased w.container d.type_id) w

pub shut_down : ModuleGraph → ℕ → World → Run
shut_down g t w = shut_down_def (def_by_type g t) w

-- `let _ =`: an error of a hook is dropped, a panic unwinds.
abbrev pub past_error : Run → (World → Run) → Run
past_error (done u, w) k = k w
past_error (fail e, w) k = k w
past_error (panicked, w) k = (panicked, w)
past_error (out_of_fuel, w) k = (out_of_fuel, w)

pub rollback_each : ModuleGraph → List ℕ → World → Run
unfolding shut_down
rollback_each g [] w = (done tt, w)
rollback_each g (t ∷ ts) w = past_error (shut_down g t w) (rollback_each g ts)

-- `return Err(error)` behind a rollback that returns.
abbrev pub return_error : HttpException → Run → Run
return_error e (done u, w) = (fail e, w)
return_error e (fail x, w) = (fail e, w)
return_error e (panicked, w) = (panicked, w)
return_error e (out_of_fuel, w) = (out_of_fuel, w)

pub rollback_graph : ModuleGraph → World → Run
unfolding rollback_each
rollback_graph g w =
    let (c, ids) = take_initialized_providers w.container in
    rollback_each g (reverse ids) (record w { container = c })

-- The results of a constructor and of an init hook: an error starts the rollback.
abbrev pub after_init :
    ModuleGraph → ProviderDef → Option ProviderDef → World → Outcome (Unit {0}) → Run
after_init g declared over w (done u) = (
  done u,
  (if has over then w else with_container (λ c. record_initialized_provider c declared.type_id) w),
)
after_init g declared over w (fail e) = return_error e (rollback_graph g w)
after_init g declared over w panicked = (panicked, w)
after_init g declared over w out_of_fuel = (out_of_fuel, w)

abbrev pub after_build :
    ModuleGraph → ProviderDef → Option ProviderDef → World → Outcome ProviderValue → Run
after_build g declared over w (done v) =
    let eff = or_declared over declared in
    let r = eff.init_fn v in
    after_init g declared over
      (call (init (has over) eff.type_id (succeeded r))
        (with_container (λ c. register_erased c eff.type_id v) w))
      (run_lifecycle eff "on_module_init" r)
after_build g declared over w (fail e) = return_error e (rollback_graph g w)
after_build g declared over w panicked = (panicked, w)
after_build g declared over w out_of_fuel = (out_of_fuel, w)

-- `take_pending_override`, and the mark that an override is applied.
abbrev pub take_override : ProviderDef → Option ProviderDef → Container → Container
take_override declared none c = drop_pending_override c declared.type_id
take_override declared (some o) c =
    mark_override_applied (drop_pending_override c declared.type_id) declared.type_id

abbrev pub build_provider : ModuleGraph → ProviderDef → Option ProviderDef → World → Run
build_provider g declared over w =
    let w1 = with_container (take_override declared over) w in
    let eff = or_declared over declared in
    let scoped = scoped_for_provider w1.container eff.type_name eff.dependencies in
    after_build g declared over (call (build eff scoped) w1) (eff.build scoped)

-- One round of the loop over the order.
abbrev pub initialize_provider : ModuleGraph → Option ProviderDef → World → Run
initialize_provider g none w = (panicked, w)
initialize_provider g (some declared) w =
    let w1 = with_container (λ c. mark_provider_declared c declared.type_id) w in
    if contains_type_id w1.container declared.type_id
      || was_overridden w1.container declared.type_id
    then (done tt, w1)
    else build_provider g declared (pending_override w1.container declared.type_id) w1

-- Go on only after a success.
abbrev pub continue : Run → (World → Run) → Run
continue (done u, w) k = k w
continue (fail e, w) k = (fail e, w)
continue (panicked, w) k = (panicked, w)
continue (out_of_fuel, w) k = (out_of_fuel, w)

pub initialize_providers : ModuleGraph → List ProviderRegistration → World → Run
unfolding rollback_graph
initialize_providers g [] w = (done tt, w)
initialize_providers g (r ∷ rs) w =
    continue (initialize_provider g (def g r) w) (initialize_providers g rs)

-- `EventHandlerDef::register`: the handler and the bus are resolved, the handler is pushed.
abbrev pub resolve_handler : EventHandlerDef → Scoped → Outcome ProviderValue
resolve_handler h scoped = do
  v ← resolve scoped h.type_id h.type_name
  b ← resolve scoped event_bus_type "EventBus"
  done v

abbrev pub subscribe : EventHandlerDef → Outcome ProviderValue → World → Run
subscribe h (done v) w = (done tt, record w { bus = w.bus ++ (h.event_type, v) ∷ [] })
subscribe h (fail e) w = (fail e, w)
subscribe h panicked w = (panicked, w)
subscribe h out_of_fuel w = (out_of_fuel, w)

abbrev pub register_handler : EventHandlerDef → World → Run
register_handler h w =
    subscribe h
      (resolve_handler h (record { services = w.container.services; dependency_scope = none })) w

abbrev pub or_rollback : ModuleGraph → Run → Run
or_rollback g (done u, w) = (done u, w)
or_rollback g (fail e, w) = return_error e (rollback_graph g w)
or_rollback g (panicked, w) = (panicked, w)
or_rollback g (out_of_fuel, w) = (out_of_fuel, w)

pub register_handlers : ModuleGraph → List EventHandlerDef → World → Run
unfolding rollback_graph
register_handlers g [] w = (done tt, w)
register_handlers g (h ∷ hs) w =
    continue (or_rollback g (register_handler h w)) (register_handlers g hs)

pub register_nodes : ModuleGraph → List ModuleNode → World → Run
unfolding register_handlers
register_nodes g [] w = (done tt, w)
register_nodes g (node ∷ nodes) w =
    continue (register_handlers g node.metadata.event_handlers w) (register_nodes g nodes)

abbrev pub with_order :
    World → Outcome (List ProviderRegistration) → (List ProviderRegistration → Run) → Run
with_order w (done order) k = k order
with_order w (fail e) k = (fail e, w)
with_order w panicked k = (panicked, w)
with_order w out_of_fuel k = (out_of_fuel, w)

unfoldable pub initialize_graph : ModuleGraph → World → Run
unfolding initialize_providers register_nodes preflight def def_by_type resolve
initialize_graph g w =
    with_order w (preflight g (some w.container))
      (λ order. continue (initialize_providers g order w) (register_nodes g g.nodes))

abbrev pub bootstrap_value : ProviderDef → Option ProviderValue → World → Run
bootstrap_value d none w = (fail (startup_error (missing_during "on_bootstrap" d.type_name)), w)
bootstrap_value d (some v) w =
    (run_lifecycle d "on_bootstrap" (d.bootstrap_fn v), call (bootstrap d.type_id) w)

abbrev pub begin_bootstrap : ModuleGraph → ProviderDef → World → Container × Bool → Run
begin_bootstrap g d w (c, false) = (done tt, record w { container = c })
begin_bootstrap g d w (c, true) =
    or_rollback g (bootstrap_value d (resolve_erased c d.type_id) (record w { container = c }))

-- `begin_provider_bootstrap` is called only behind the first two tests.
abbrev pub bootstrap_provider : ModuleGraph → List ℕ → Option ProviderDef → World → Run
bootstrap_provider g initialized none w = (panicked, w)
bootstrap_provider g initialized (some d) w =
    if contains initialized d.type_id && not (was_overridden w.container d.type_id)
    then begin_bootstrap g d w (begin_provider_bootstrap w.container d.type_id)
    else (done tt, w)

pub bootstrap_providers : ModuleGraph → List ℕ → List ProviderRegistration → World → Run
unfolding rollback_graph
bootstrap_providers g initialized [] w = (done tt, w)
bootstrap_providers g initialized (r ∷ rs) w =
    continue (bootstrap_provider g initialized (def g r) w) (bootstrap_providers g initialized rs)

unfoldable pub bootstrap_graph : ModuleGraph → World → Run
unfolding bootstrap_providers preflight def def_by_type
bootstrap_graph g w =
    with_order w (preflight g (some w.container))
      (λ order. bootstrap_providers g w.container.initialized_providers order w)

-- `if first.is_none()`
abbrev pub first_error : Option HttpException → HttpException → Option HttpException
first_error none e = some e
first_error (some x) e = some x

-- `first.map_or(Ok(()), Err)`
abbrev pub or_done : Option HttpException → Outcome (Unit {0})
or_done none = done tt
or_done (some e) = fail e

-- The result of a hook: the other hooks run also behind an error, but not behind a panic.
abbrev pub note_error : Option HttpException → Run → (Option HttpException → World → Run) → Run
note_error first (done u, w) k = k first w
note_error first (fail e, w) k = k (first_error first e) w
note_error first (panicked, w) k = (panicked, w)
note_error first (out_of_fuel, w) k = (out_of_fuel, w)

pub shutdown_each : ModuleGraph → List ℕ → Option HttpException → World → Run
unfolding shut_down
shutdown_each g [] first w = (or_done first, w)
shutdown_each g (t ∷ ts) first w = note_error first (shut_down g t w) (shutdown_each g ts)

unfoldable pub shutdown_graph : ModuleGraph → World → Run
unfolding shutdown_each def_by_type
shutdown_graph g w =
    let (c, ids) = take_initialized_providers w.container in
    shutdown_each g (reverse ids) none (record w { container = c })
