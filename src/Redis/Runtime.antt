-- ===== src/Redis/Runtime.antt =====
-- crates/caelix-microservices/src/redis_transport.rs: `run` of `RedisRuntime`, which starts the
-- consumers of the handlers, waits for an end and stops the tasks and the providers.
pub mod Plan
pub mod Stops
use caelix.Prelude.{
  String, Bool, true, false, not, ◌&&◌, ◌||◌, Option, none, some, List, [], ◌∷◌, if◌then◌else◌,
  has_text,
}
use Prim.Native.String.{◌++◌}
use caelix.Errors.{Message}
use caelix.Metadata.{MessageHandlerDef}
use caelix.Messages.{Bytes, MicroserviceError, transport, framework}
use caelix.Messages.Effects.{Result, ok, err, Action, also, pure, note, lift, ◌>>=◌, ◌>>◌}
use caelix.Messages.Pool.{JoinResult, joined, panicked}
use caelix.Redis.{RedisTransportOptions, validate, command_stream, command_group, event_group}
use caelix.Redis.Broker.Events.{is_event}

pub data TaskEffect : Type 0 where
  xgroup_create : (stream group : String) → TaskEffect
  spawn_command_loop : (handler : MessageHandlerDef) → (service consumer : String) → TaskEffect
  spawn_event_loop : (service consumer : String) → TaskEffect
  cancel abort_all shutdown_module : TaskEffect

-- What is not the runtime's code: the broker, the name of this consumer, the interrupt with a failure
-- to listen for one, the first task to end unless the interrupt is first (with none for no task), and
-- whether the tasks end before the deadline.
pub record Host : Type 0 where
  pub sha256 : String → Bytes
  pub consumer : String
  pub answer : List TaskEffect → TaskEffect → Option String
  pub signal : List TaskEffect → Option String
  pub join_next : List TaskEffect → Option (Option JoinResult)
  pub in_time : List TaskEffect → Bool
  pub module_error : List TaskEffect → Option Message

abbrev pub RedisStep : Type 0 → Type 0
RedisStep = Action TaskEffect MicroserviceError

abbrev pub mapped :
    {A : Type 0} → (A → MicroserviceError) → Option A → Result MicroserviceError (Unit {0})
mapped wrap none = ok tt
mapped wrap (some e) = err (wrap e)

-- A group that exists already is no error.
abbrev pub group_result : Option String → Result MicroserviceError (Unit {0})
group_result none = ok tt
group_result (some e) = if has_text "BUSYGROUP" e then ok tt else err (transport e)

abbrev pub has_tasks : List TaskEffect → Bool
has_tasks [] = false
has_tasks (spawn_command_loop handler service consumer ∷ h) = true
has_tasks (spawn_event_loop service consumer ∷ h) = true
has_tasks (xgroup_create stream group ∷ h) = has_tasks h
has_tasks (cancel ∷ h) = has_tasks h
has_tasks (abort_all ∷ h) = has_tasks h
has_tasks (shutdown_module ∷ h) = has_tasks h

abbrev pub any_event : List MessageHandlerDef → Bool
any_event [] = false
any_event (handler ∷ hs) = is_event handler.kind || any_event hs

-- A task that ends is an error, whatever its result is.
abbrev pub task_end : Option JoinResult → Result MicroserviceError (Unit {0})
task_end none = ok tt
task_end (some (joined (ok u))) = err (transport "Redis transport task ended unexpectedly")
task_end (some (joined (err e))) = err e
task_end (some (panicked e)) = err (transport ("Redis transport task panicked: " ++ e))

module _ (env : Host) (options : RedisTransportOptions) (handlers : List MessageHandlerDef) where
  abbrev pub create_group : String → String → RedisStep (Unit {0})
  create_group stream group h =
      let x = xgroup_create stream group in (group_result (env.answer h x), x ∷ h)

  abbrev pub start_command_loop : String → MessageHandlerDef → RedisStep (Unit {0})
  start_command_loop service handler =
      create_group (command_stream env.sha256 handler.pattern)
        (command_group env.sha256 service handler.pattern)
      >> note (spawn_command_loop handler service env.consumer)

  abbrev pub start_command_loops : String → List MessageHandlerDef → RedisStep (Unit {0})
  start_command_loops service [] = pure tt
  start_command_loops service (handler ∷ hs) =
      let rest = start_command_loops service hs in
      if is_event handler.kind then rest else start_command_loop service handler >> rest

  abbrev pub start_event_loop : Bool → String → RedisStep (Unit {0})
  start_event_loop false service = pure tt
  start_event_loop true service =
      create_group options.event_stream (event_group env.sha256 service)
      >> note (spawn_event_loop service env.consumer)

  abbrev pub start_loops : String → RedisStep (Unit {0})
  start_loops service =
      start_command_loops service handlers >> start_event_loop (any_event handlers) service

  -- `select!`: a task is waited for only where there is one.
  abbrev pub first_end : Option (Option JoinResult) → Option String → RedisStep (Unit {0})
  first_end none signal = lift (mapped transport signal)
  first_end (some r) signal = lift (task_end r)

  abbrev pub wait_for_end : RedisStep (Unit {0})
  wait_for_end h = first_end (if has_tasks h then env.join_next h else none) (env.signal h) h

  abbrev pub shutdown_redis_tasks : RedisStep (Unit {0})
  shutdown_redis_tasks h =
      if has_tasks h && not (env.in_time h)
      then (
        err (
            transport
              "Redis transport shutdown deadline elapsed; unfinished handlers were aborted"),
        abort_all ∷ h,
      )
      else (ok tt, h)

  abbrev pub stop_all :
      Result MicroserviceError (Unit {0})
      → Result MicroserviceError (Unit {0}) × List TaskEffect
      → Result MicroserviceError (Unit {0}) × List TaskEffect
  stop_all runtime_result (task_shutdown, h) =
      let h1 = shutdown_module ∷ h in
      (also (also runtime_result task_shutdown) (mapped framework (env.module_error h1)), h1)

  abbrev pub finish :
      Result MicroserviceError (Unit {0}) × List TaskEffect
      → Result MicroserviceError (Unit {0}) × List TaskEffect
  finish (runtime_result, h) = stop_all runtime_result (shutdown_redis_tasks (cancel ∷ h))

  unfoldable pub run : RedisStep (Unit {0})
  run h =
      finish
        ((lift (validate options handlers) >>= λ service. start_loops service >> wait_for_end) h)
