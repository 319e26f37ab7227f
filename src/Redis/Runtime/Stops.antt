-- ===== src/Redis/Runtime/Stops.antt =====
-- crates/caelix-microservices/src/redis_transport.rs: what a run of `RedisRuntime` starts and stops.
use caelix.Prelude.{String, ◌≡◌, ◌⊎◌, true, false, Option, none, some, List, [], ◌∷◌}
use caelix.Metadata.{MessageHandlerDef}
use Prim.Native.String.{◌++◌}
use caelix.Messages.{MicroserviceError, transport, framework}
use caelix.Messages.Effects.{Result, ok, err, also}
use caelix.Messages.Pool.{JoinResult, joined, panicked}
use caelix.Redis.{RedisTransportOptions, validate}
use caelix.Redis.Options.{IsUsable}
use caelix.Redis.Runtime.{TaskEffect, cancel, abort_all, shutdown_module, Host, mapped, has_tasks}
use caelix.Redis.Runtime.Plan.{Ran, IsPart, IsRefused, plan}

abbrev pub late_text : String
late_text = "Redis transport shutdown deadline elapsed; unfinished handlers were aborted"

-- The task that ended first ends the wait: with its error, or with one of the transport.
abbrev pub IsTaskEnd : Option JoinResult → Result MicroserviceError (Unit {0}) → Type 0
IsTaskEnd none r = r ≡ ok tt
IsTaskEnd (some (joined (ok u))) r = r ≡ err (transport "Redis transport task ended unexpectedly")
IsTaskEnd (some (joined (err e))) r = r ≡ err e
IsTaskEnd (some (panicked e)) r = r ≡ err (transport ("Redis transport task panicked: " ++ e))

-- The interrupt is a success, a failure to listen for it an error.
abbrev pub IsInterrupt : Option String → Result MicroserviceError (Unit {0}) → Type 0
IsInterrupt none r = r ≡ ok tt
IsInterrupt (some e) r = r ≡ err (transport e)

module _ (env : Host) where
  -- How the wait behind the history `h` ends.
  abbrev pub IsEnd : List TaskEffect → Result MicroserviceError (Unit {0}) → Type 0
  IsEnd h r =
      (((has_tasks h ≡ false) ⊎ (env.join_next h ≡ none)) × IsInterrupt (env.signal h) r)
      ⊎ ((has_tasks h ≡ true)
          × ((t : Option JoinResult) × (env.join_next h ≡ some t) × IsTaskEnd t r))

module _ (env : Host) (options : RedisTransportOptions) where
  module _ (handlers : List MessageHandlerDef) where
    -- What is started and how it ends: nothing where the options are refused, else all of the plan for
    -- options that are usable and then a wait, or a part of it behind a group that is refused.
    abbrev pub IsStart : Ran → Type 0
    IsStart (r, h) =
        ((e : MicroserviceError) × (validate options handlers ≡ err e) × (r ≡ err e) × (h ≡ []))
        ⊎ ((service : String) × IsUsable options handlers service
            × (((h ≡ plan env options service handlers) × IsEnd env h r)
                ⊎ (IsPart h (plan env options service handlers)
                    × ((e : MicroserviceError) × (r ≡ err e) × IsRefused env e h))))

    -- Behind it the loops are cancelled, tasks that are late aborted, and the providers shut down last.
    -- The result is the first error.
    abbrev pub IsStopped : Ran → Ran → Type 0
    IsStopped (r, h) (s, l) =
        ((l ≡ shutdown_module ∷ cancel ∷ h) × (s ≡ also r (mapped framework (env.module_error l))))
        ⊎ ((l ≡ shutdown_module ∷ abort_all ∷ cancel ∷ h)
            × (s ≡ also r (err (transport late_text)))
            × (has_tasks h ≡ true)
            × (env.in_time (cancel ∷ h) ≡ false))
