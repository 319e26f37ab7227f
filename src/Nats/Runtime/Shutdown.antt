-- ===== src/Nats/Runtime/Shutdown.antt =====
-- crates/caelix-microservices/src/lib.rs: `shutdown` and `run` of `MicroserviceRuntime`.
use caelix.Prelude.{String, Bool, true, false, Option, none, some, List, [], ◌∷◌}
use caelix.Metadata.{MessageHandlerDef}
use caelix.Messages.{MicroserviceError, transport}
use caelix.Messages.Effects.{Result, ok, err}
use caelix.Messages.Pool.{JoinResult, task_result}
use caelix.Nats.{NatsTransportOptions}
use caelix.Nats.Runtime.{
  RuntimeEffect, Surroundings, Runtime, Outcome, Wake, start, abort_tasks, shutdown_module, drain,
  cancelled, interrupted, no_task, not_listening, task_ended,
}

module _ (env : Surroundings) (options : NatsTransportOptions)
    (handlers : List MessageHandlerDef) where
  abbrev pub first_error : List JoinResult → Option MicroserviceError
  first_error [] = none
  first_error (r ∷ rs) = elim (task_result r) [ ok u ↦ first_error rs | err e ↦ some e ]

  -- `get_or_insert_with`, and `or`
  abbrev pub or_error :
      Option MicroserviceError → Option MicroserviceError → Option MicroserviceError
  or_error none e = e
  or_error (some e) f = some e

  abbrev pub late : MicroserviceError
  late = transport "transport shutdown deadline elapsed; unfinished handlers were aborted"

  -- The tasks are waited for, and those that are late aborted.
  abbrev pub wait_for_tasks :
      Bool
      → Option MicroserviceError
      → List RuntimeEffect
      → Option MicroserviceError × List RuntimeEffect
  wait_for_tasks true e h = (e, h)
  wait_for_tasks false e h = (or_error e (some late), abort_tasks ∷ h)

  abbrev pub map_or : Option MicroserviceError → Result MicroserviceError (Unit {0})
  map_or none = ok tt
  map_or (some e) = err e

  abbrev pub drained_error : Option String → Option MicroserviceError
  drained_error none = none
  drained_error (some e) = some (transport e)

  abbrev pub stopped : Runtime → Runtime
  stopped rt = record rt { shut_down = true; cancelled = true }

  abbrev pub stop_providers : Runtime → Option MicroserviceError × List RuntimeEffect → Outcome
  stop_providers rt (e, h) =
      let h1 = shutdown_module ∷ h in
      (
        map_or (or_error (or_error e (env.module_error h1)) (drained_error (env.answer h1 drain))),
        (stopped rt, drain ∷ h1),
      )

  -- With the results of the tasks that end, and whether all do in time.
  abbrev pub shutdown_unless :
      Bool → List JoinResult → Bool → Runtime → List RuntimeEffect → Outcome
  shutdown_unless true results in_time rt h = (ok tt, (rt, h))
  shutdown_unless false results in_time rt h =
      stop_providers rt (wait_for_tasks in_time (first_error results) h)

  unfoldable pub shutdown_with : List JoinResult → Bool → Runtime → List RuntimeEffect → Outcome
  shutdown_with results in_time rt h = shutdown_unless rt.shut_down results in_time rt h

  unfoldable pub shutdown : Runtime → List RuntimeEffect → Outcome
  unfolding shutdown_with
  shutdown rt h = shutdown_with (env.ended_tasks h) (env.in_time h) rt h

  abbrev pub cancel : Runtime → Runtime
  cancel rt = record rt { cancelled = true }

  -- An end of a task is an error, whatever its result is.
  abbrev pub wake_error : Wake → Option MicroserviceError
  wake_error cancelled = none
  wake_error interrupted = none
  wake_error no_task = none
  wake_error (not_listening m) = some (transport m)
  wake_error (task_ended r) = elim (task_result r) [
    | ok u ↦ some (transport "transport task ended unexpectedly")
    | err e ↦ some e
  ]

  -- The first error is what `run` returns.
  abbrev pub prefer : Option MicroserviceError → Outcome → Outcome
  prefer none o = o
  prefer (some e) (r, s) = (err e, s)

  -- `run` has taken the tasks, so the shutdown finds none.
  abbrev pub finish_run : Runtime → Option MicroserviceError × List RuntimeEffect → Outcome
  finish_run rt (e, h) = prefer e (shutdown_with [] true rt h)

  unfoldable pub after_wake : Wake → Runtime → List RuntimeEffect → Outcome
  unfolding shutdown_with
  after_wake (not_listening m) rt h = (err (transport m), (rt, h))
  after_wake cancelled rt h = finish_run rt (wait_for_tasks (env.in_time h) none h)
  after_wake interrupted rt h = finish_run (cancel rt) (wait_for_tasks (env.in_time h) none h)
  after_wake no_task rt h = finish_run rt (wait_for_tasks (env.in_time h) none h)
  after_wake (task_ended r) rt h =
      finish_run (cancel rt) (wait_for_tasks (env.in_time h) (wake_error (task_ended r)) h)

  unfoldable pub after_start : Outcome → Outcome
  unfolding after_wake shutdown
  after_start (ok u, (rt, h)) = after_wake (env.wake h) rt h
  after_start (err e, (rt, h)) = prefer (some e) (shutdown rt h)

  unfoldable pub run : Runtime → List RuntimeEffect → Outcome
  unfolding after_start
  run rt h = after_start (start env options handlers rt h)
