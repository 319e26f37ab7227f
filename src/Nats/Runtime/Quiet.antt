-- ===== src/Nats/Runtime/Quiet.antt =====
-- crates/caelix-microservices/src/lib.rs: a start does not shut the providers down.
use caelix.Prelude.{
  String, ◌≡◌, refl, ◌∙◌, inl, inr, Bool, true, false, Option, none, some, List, [], ◌∷◌, ◌++◌,
  Bool-cases,
}
use caelix.Metadata.{MessageHandlerDef}
use caelix.Messages.{MicroserviceError}
use caelix.Messages.Effects.{Result, ok, err, continue, ◌>>=◌, ◌>>◌}
use caelix.Messages.History.{tally}
use caelix.Redis.Broker.Events.{is_event}
use caelix.Nats.{NatsTransportOptions}
use caelix.Nats.Runtime.{
  RuntimeEffect, create_stream, create_consumer, open_messages, queue_subscribe, spawn_consumer,
  flush, abort_tasks, shutdown_module, drain, Surroundings, RunStep, event_patterns, listed,
  same_bool, ask, check, start_event, start_command, each_of, check_dead_letters, stream_name,
  create_covering_stream, start_events, service_of, start_handlers, start_tasks,
}

abbrev pub stops : RuntimeEffect → Bool
stops (create_stream n ss) = false
stops (create_consumer d c) = false
stops (open_messages d) = false
stops (queue_subscribe p g) = false
stops (spawn_consumer m) = false
stops flush = false
stops abort_tasks = false
stops shutdown_module = true
stops drain = false

-- A step that does not shut the providers down.
pub record IsQuiet {A : Type 0} (m : RunStep A) : Type 0 where
  pub adds_none : (h : List RuntimeEffect) → tally stops (m h).1 ≡ tally stops h

quiet-continue :
    {A B : Type 0} (r : Result MicroserviceError A × List RuntimeEffect) (f : A → RunStep B)
    → ((a : A) → IsQuiet (f a))
    → tally stops (continue r f).1 ≡ tally stops r.1
quiet-continue (ok a, h) f q = (q a).adds_none h
quiet-continue (err e, h) f q = refl

IsQuiet-bind :
    {A B : Type 0} (m : RunStep A) (f : A → RunStep B)
    → IsQuiet m
    → ((a : A) → IsQuiet (f a))
    → IsQuiet (m >>= f)
IsQuiet-bind m f q k = record { adds_none = λ h. quiet-continue (m h) f k ∙ q.adds_none h }

IsQuiet-then :
    {B : Type 0} (m : RunStep (Unit {0})) (k : RunStep B) → IsQuiet m → IsQuiet k → IsQuiet (m >> k)
IsQuiet-then m k q r = record {
  adds_none = λ h. quiet-continue (m h) (λ _. k) (λ _. r) ∙ q.adds_none h;
}

module _ (env : Surroundings) (options : NatsTransportOptions)
    (handlers : List MessageHandlerDef) where
  IsQuiet-ask : (x : RuntimeEffect) → stops x ≡ false → IsQuiet (ask env options handlers x)
  IsQuiet-ask x e = record { adds_none = λ h. rw e refl }

  IsQuiet-check : (b : Bool) (text : String) → IsQuiet (check env options handlers b text)
  IsQuiet-check true text = record { adds_none = λ h. refl }
  IsQuiet-check false text = record { adds_none = λ h. refl }

  start_event-IsQuiet :
      (service : String) (handler : MessageHandlerDef)
      → IsQuiet (start_event env options handlers service handler)
  unfolding start_event
  start_event-IsQuiet service handler = IsQuiet-then _ _ (IsQuiet-ask _ refl) (
      IsQuiet-then _ _ (record { adds_none = λ h. (IsQuiet-check _ _).adds_none h })
        (IsQuiet-then _ _ (IsQuiet-ask _ refl) (record { adds_none = λ h. refl })))

  start_command-IsQuiet :
      (service : String) (handler : MessageHandlerDef)
      → IsQuiet (start_command env options handlers service handler)
  unfolding start_command
  start_command-IsQuiet service handler =
      IsQuiet-then _ _ (IsQuiet-ask _ refl) (record { adds_none = λ h. refl })

  each_of-IsQuiet :
      (events : Bool) (f : MessageHandlerDef → RunStep (Unit {0})) (hs : List MessageHandlerDef)
      → ((handler : MessageHandlerDef) → IsQuiet (f handler))
      → IsQuiet (each_of env options handlers events f hs)
  each_of-IsQuiet events f [] q = record { adds_none = λ h. refl }
  each_of-IsQuiet events f (handler ∷ hs) q =
      elim (Bool-cases (same_bool events (is_event handler.kind))) [
        | inl mine ↦ rw mine (
            IsQuiet-then (f handler) (each_of env options handlers events f hs) (q handler)
              (each_of-IsQuiet events f hs q))
        | inr other ↦ rw other (each_of-IsQuiet events f hs q)
      ]

  check_dead_letters-IsQuiet :
      (place : Option String) → IsQuiet (check_dead_letters env options handlers place)
  check_dead_letters-IsQuiet none = record { adds_none = λ h. refl }
  check_dead_letters-IsQuiet (some s) = IsQuiet-check _ _

  stream_name-IsQuiet : (name : Option String) → IsQuiet (stream_name env options handlers name)
  stream_name-IsQuiet none = record { adds_none = λ h. refl }
  stream_name-IsQuiet (some n) = record { adds_none = λ h. refl }

  create_covering_stream-IsQuiet :
      (subjects : List String) (name : String)
      → IsQuiet (create_covering_stream env options handlers subjects name)
  create_covering_stream-IsQuiet subjects name =
      IsQuiet-then _ _ (IsQuiet-ask _ refl)
        (record { adds_none = λ h. (IsQuiet-check _ _).adds_none h })

  start_events-IsQuiet :
      (subjects : List String) (service : String)
      → IsQuiet (start_events env options handlers subjects service)
  unfolding start_events
  start_events-IsQuiet [] service = record { adds_none = λ h. refl }
  start_events-IsQuiet (s ∷ subjects) service =
      IsQuiet-then _ _ (check_dead_letters-IsQuiet options.dead_letter_subject) (
        IsQuiet-bind _ _ (stream_name-IsQuiet options.jetstream_stream) (λ name.
          IsQuiet-then _ _ (create_covering_stream-IsQuiet (s ∷ subjects) name)
            (each_of-IsQuiet true _ handlers (start_event-IsQuiet service))))

  service_of-IsQuiet : (hs : List MessageHandlerDef) → IsQuiet (service_of env options handlers hs)
  service_of-IsQuiet [] = record { adds_none = λ h. refl }
  service_of-IsQuiet (m ∷ hs) = record { adds_none = λ h. refl }

  pub start_tasks-IsQuiet : IsQuiet (start_tasks env options handlers)
  unfolding start_tasks start_handlers
  start_tasks-IsQuiet = IsQuiet-bind _ _ (service_of-IsQuiet handlers) (λ service.
      IsQuiet-then _ _
        (start_events-IsQuiet (event_patterns handlers ++ listed options.dead_letter_subject)
          service)
        (IsQuiet-then _ _ (each_of-IsQuiet false _ handlers (start_command-IsQuiet service))
          (IsQuiet-ask flush refl)))
