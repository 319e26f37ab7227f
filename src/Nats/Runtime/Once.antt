-- ===== src/Nats/Runtime/Once.antt =====
-- crates/caelix-microservices/src/lib.rs: the providers are shut down once.
use caelix.Prelude.{
  suc, String, ◌≡◌, refl, sym, subst, ap, ◌∙◌, ◌⊎◌, inl, inr, Bool, true, false, Option, none, some,
  List, [], ◌∷◌, if◌then◌else◌,
}
use caelix.Metadata.{MessageHandlerDef}
use caelix.Messages.{MicroserviceError, transport}
use caelix.Messages.Effects.{Result, ok, err}
use caelix.Messages.History.{tally}
use caelix.Messages.Pool.{JoinResult}
use caelix.Nats.{NatsTransportOptions}
use caelix.Nats.Runtime.{
  RuntimeEffect, Surroundings, Runtime, Outcome, Wake, cancelled, interrupted, no_task,
  not_listening, task_ended, start_tasks, started_by, start_unless, start,
}
use caelix.Nats.Runtime.Shutdown.{
  shutdown_unless, first_error, wait_for_tasks, shutdown_with, shutdown, cancel, wake_error, prefer,
  finish_run, after_wake, after_start, run,
}
use caelix.Nats.Runtime.Quiet.{stops, start_tasks-IsQuiet}

module _ (env : Surroundings) (options : NatsTransportOptions)
    (handlers : List MessageHandlerDef) where
  -- The providers were shut down once if the runtime is, else not at all; and then no start succeeds.
  abbrev pub IsOnce : Runtime × List RuntimeEffect → Type 0
  IsOnce (rt, h) =
      (tally stops h ≡ (if rt.shut_down then 1 else 0))
      × (rt.shut_down ≡ true → rt.cancelled ≡ true)

  started_by-IsOnce :
      (rt : Runtime) (r : Result MicroserviceError (Unit {0}) × List RuntimeEffect)
      → IsOnce (rt, r.1)
      → IsOnce (started_by env options handlers rt r).1
  started_by-IsOnce rt (ok u, h) o = o
  started_by-IsOnce rt (err e, h) o = o

  start-IsOnce :
      (rt : Runtime) (h : List RuntimeEffect)
      → IsOnce (rt, h)
      → IsOnce (start env options handlers rt h).1
  unfolding start
  start-IsOnce rt h o = go rt.cancelled rt.started
    where
      go : (c s : Bool) → IsOnce (start_unless env options handlers c s rt h).1
      go true s = o
      go false true = o
      go false false =
          started_by-IsOnce rt (start_tasks env options handlers h)
            ((start_tasks-IsQuiet env options handlers).adds_none h ∙ o.0, o.1)

  wait_for_tasks-stops :
      (in_time : Bool) (e : Option MicroserviceError) (h : List RuntimeEffect)
      → tally stops (wait_for_tasks env options handlers in_time e h).1 ≡ tally stops h
  wait_for_tasks-stops true e h = refl
  wait_for_tasks-stops false e h = refl

  -- The runtime is shut down, and its providers were, once.
  abbrev pub IsDown : Runtime × List RuntimeEffect → Type 0
  IsDown (rt, h) = (tally stops h ≡ 1) × (rt.shut_down ≡ true) × (rt.cancelled ≡ true)

  shutdown_with-IsDown :
      (results : List JoinResult) (in_time : Bool) (rt : Runtime) (h : List RuntimeEffect)
      → IsOnce (rt, h)
      → IsDown (shutdown_with env options handlers results in_time rt h).1
  unfolding shutdown_with
  shutdown_with-IsDown results in_time rt h o = go rt.shut_down refl
    where
      go :
          (b : Bool)
          → rt.shut_down ≡ b
          → IsDown (shutdown_unless env options handlers b results in_time rt h).1
      go true e = (rw e at o.0, e, o.1 e)
      go false e =
          let none_yet : tally stops h ≡ 0 = rw e at o.0 in
          let waited = wait_for_tasks-stops in_time (first_error env options handlers results) h in
          (ap suc (waited ∙ none_yet), refl, refl)

  IsDown-IsOnce : (s : Runtime × List RuntimeEffect) → IsDown s → IsOnce s
  IsDown-IsOnce (rt, h) (once, down, off) = (rw down once, λ e. off)

  prefer-state :
      (e : Option MicroserviceError) (o : Outcome) → (prefer env options handlers e o).1 ≡ o.1
  prefer-state none o = refl
  prefer-state (some e) o = refl

  finish_run-IsDown :
      (rt : Runtime) (in_time : Bool) (e : Option MicroserviceError) (h : List RuntimeEffect)
      → IsOnce (rt, h)
      → IsDown
          (finish_run env options handlers rt (wait_for_tasks env options handlers in_time e h)).1
  finish_run-IsDown rt in_time e h o =
      let (f, h') = wait_for_tasks env options handlers in_time e h in
      subst IsDown (sym (prefer-state f (shutdown_with env options handlers [] true rt h')))
        (shutdown_with-IsDown [] true rt h' (wait_for_tasks-stops in_time e h ∙ o.0, o.1))

  -- `run` could not listen for an interrupt: it returns that error and does nothing else.
  abbrev pub IsDeaf : Outcome → Outcome → Type 0
  IsDeaf started o =
      (m : String) × (started.0 ≡ ok tt)
      × (env.wake started.1.1 ≡ not_listening m)
      × (o ≡ (err (transport m), started.1))

  after_wake-IsDown :
      (w : Wake) (rt : Runtime) (h : List RuntimeEffect)
      → IsOnce (rt, h)
      → env.wake h ≡ w
      → IsDown (after_wake env options handlers w rt h).1
        ⊎ IsDeaf (ok tt, (rt, h)) (after_wake env options handlers w rt h)
  unfolding after_wake
  after_wake-IsDown (not_listening m) rt h o e = inr (m, refl, e, refl)
  after_wake-IsDown cancelled rt h o e = inl (finish_run-IsDown rt (env.in_time h) none h o)
  after_wake-IsDown no_task rt h o e = inl (finish_run-IsDown rt (env.in_time h) none h o)
  after_wake-IsDown interrupted rt h o e =
      inl
        (finish_run-IsDown (cancel env options handlers rt) (env.in_time h) none h (o.0, λ f. refl))
  after_wake-IsDown (task_ended r) rt h o e = inl (
      finish_run-IsDown (cancel env options handlers rt) (env.in_time h)
        (wake_error env options handlers (task_ended r)) h (o.0, λ f. refl))

  after_start-IsDown :
      (s : Outcome)
      → IsOnce s.1
      → IsDown (after_start env options handlers s).1
        ⊎ IsDeaf s (after_start env options handlers s)
  unfolding after_start shutdown
  after_start-IsDown (ok u, (rt, h)) o = after_wake-IsDown (env.wake h) rt h o refl
  after_start-IsDown (err e, (rt, h)) o =
      inl (shutdown_with-IsDown (env.ended_tasks h) (env.in_time h) rt h o)

-- The calls of a runtime, of which a shutdown finds some tasks.
pub data RunCall : Type 0 where
  start_call cancel_call : RunCall
  shutdown_call : List JoinResult → Bool → RunCall

module _ (env : Surroundings) (options : NatsTransportOptions)
    (handlers : List MessageHandlerDef) where
  abbrev pub perform : RunCall → Runtime × List RuntimeEffect → Runtime × List RuntimeEffect
  perform start_call (rt, h) = (start env options handlers rt h).1
  perform cancel_call (rt, h) = (cancel env options handlers rt, h)
  perform (shutdown_call results in_time) (rt, h) =
      (shutdown_with env options handlers results in_time rt h).1

  abbrev pub perform_all :
      List RunCall → Runtime × List RuntimeEffect → Runtime × List RuntimeEffect
  perform_all [] s = s
  perform_all (c ∷ cs) s = perform_all cs (perform c s)

  perform-IsOnce :
      (c : RunCall) (s : Runtime × List RuntimeEffect)
      → IsOnce env options handlers s
      → IsOnce env options handlers (perform c s)
  perform-IsOnce start_call (rt, h) o = start-IsOnce env options handlers rt h o
  perform-IsOnce cancel_call (rt, h) o = (o.0, λ e. refl)
  perform-IsOnce (shutdown_call results in_time) (rt, h) o =
      IsDown-IsOnce env options handlers (shutdown_with env options handlers results in_time rt h).1
        (shutdown_with-IsDown env options handlers results in_time rt h o)

  perform_all-IsOnce_from :
      (cs : List RunCall) (s : Runtime × List RuntimeEffect)
      → IsOnce env options handlers s
      → IsOnce env options handlers (perform_all cs s)
  perform_all-IsOnce_from [] s o = o
  perform_all-IsOnce_from (c ∷ cs) s o =
      perform_all-IsOnce_from cs (perform c s) (perform-IsOnce c s o)

abbrev pub new_runtime : Runtime
new_runtime = record { cancelled = false; started = false; shut_down = false }

-- Whatever calls a runtime gets, its providers are shut down once when it is shut down, and not before;
-- and from then on it is cancelled, so that no start succeeds.
pub perform_all-IsOnce :
    (env : Surroundings) (options : NatsTransportOptions) (handlers : List MessageHandlerDef)
    (cs : List RunCall)
    → IsOnce env options handlers (perform_all env options handlers cs (new_runtime, []))
perform_all-IsOnce env options handlers cs =
    perform_all-IsOnce_from env options handlers cs (new_runtime, []) (refl, λ e. cc e)

-- A run of a new runtime ends with the providers shut down, once, however it starts and whatever wakes
-- it, except when it started but cannot listen for an interrupt: then it returns at once with that
-- error and leaves the providers as they are.
pub run-IsDown :
    (env : Surroundings) (options : NatsTransportOptions) (handlers : List MessageHandlerDef)
    → let o = run env options handlers new_runtime [] in
      IsDown env options handlers o.1
      ⊎ IsDeaf env options handlers (start env options handlers new_runtime []) o
unfolding run
run-IsDown env options handlers =
    after_start-IsDown env options handlers (start env options handlers new_runtime [])
      (start-IsOnce env options handlers new_runtime [] (refl, λ e. cc e))
