-- ===== src/Nats/Runtime.antt =====
-- crates/caelix-microservices/src/lib.rs: `MicroserviceRuntime`, which starts the consumers of the
-- handlers and shuts them down once. Locks are held for a whole call, so calls follow one another.
pub mod Start
pub mod Shutdown
pub mod Quiet
pub mod Once
use caelix.Prelude.{
  ℕ, String, Bool, true, false, not, ◌&&◌, ◌||◌, Option, none, some, List, [], ◌∷◌, ◌++◌, ◌==◌,
  str_eq, if◌then◌else◌,
}
use Prim.Native.String.{◌++◌ as text_append}
use caelix.Metadata.{MessageHandlerKind, command, event, MessageHandlerDef}
use caelix.Messages.{Bytes, MicroserviceError, transport, configuration}
use caelix.Messages.Effects.{Result, ok, err, Action, pure, raise, send, note, lift, ◌>>=◌, ◌>>◌}
use caelix.Messages.Patterns.{nats_pattern_matches, nats_pattern_covers, valid_nats_subject}
use caelix.Messages.Pool.{JoinResult, task_result}
use caelix.Redis.{hex}
use caelix.Redis.Broker.Events.{is_event}
use caelix.Nats.{NatsTransportOptions, queue_group}

-- `max_deliver` is none for -1, without limit.
pub record ConsumerConfig : Type 0 where
  pub filter_subject : String
  pub explicit_ack : Bool
  pub max_deliver : Option ℕ
  pub max_ack_pending : ℕ
  pub ack_wait : ℕ

pub data RuntimeEffect : Type 0 where
  create_stream : (name : String) → (subjects : List String) → RuntimeEffect
  create_consumer : (durable : String) → ConsumerConfig → RuntimeEffect
  open_messages : (durable : String) → RuntimeEffect
  queue_subscribe : (pattern group : String) → RuntimeEffect
  spawn_consumer : MessageHandlerDef → RuntimeEffect
  flush abort_tasks shutdown_module drain : RuntimeEffect

-- What wakes `run`: a cancellation, an interrupt, a failure to listen for one, or the tasks.
pub data Wake : Type 0 where
  cancelled interrupted no_task : Wake
  not_listening : String → Wake
  task_ended : JoinResult → Wake

-- What is not the runtime's code: the broker, the configuration that it reports, the hash of a service,
-- a zero byte and a subject, and how tasks end.
pub record Surroundings : Type 0 where
  pub answer : List RuntimeEffect → RuntimeEffect → Option String
  pub stream_subjects : List RuntimeEffect → List String
  pub consumer_config : List RuntimeEffect → ConsumerConfig
  pub sha256 : String → String → Bytes
  pub ended_tasks : List RuntimeEffect → List JoinResult
  pub in_time : List RuntimeEffect → Bool
  pub module_error : List RuntimeEffect → Option MicroserviceError
  pub wake : List RuntimeEffect → Wake

pub record Runtime : Type 0 where
  pub cancelled : Bool
  pub started : Bool
  pub shut_down : Bool

abbrev pub RunStep : Type 0 → Type 0
RunStep = Action RuntimeEffect MicroserviceError

-- What a call comes to: its result, and the runtime and the history after it.
abbrev pub Outcome : Type 0
Outcome = Result MicroserviceError (Unit {0}) × (Runtime × List RuntimeEffect)

unfoldable pub durable_name : (String → String → Bytes) → String → String → String
durable_name sha256 service subject = text_append "caelix-" (hex (sha256 service subject))

abbrev pub event_patterns : List MessageHandlerDef → List String
event_patterns [] = []
event_patterns (h ∷ hs) =
    let rest = event_patterns hs in if is_event h.kind then h.pattern ∷ rest else rest

abbrev pub listed : Option String → List String
listed none = []
listed (some s) = s ∷ []

abbrev pub any_matches : List MessageHandlerDef → String → Bool
any_matches [] subject = false
any_matches (h ∷ hs) subject = nats_pattern_matches h.pattern subject || any_matches hs subject

abbrev pub any_covers : List String → String → Bool
any_covers [] subject = false
any_covers (c ∷ cs) subject = nats_pattern_covers c subject || any_covers cs subject

abbrev pub all_covered : List String → List String → Bool
all_covered configured [] = true
all_covered configured (s ∷ ss) = any_covers configured s && all_covered configured ss

abbrev pub same_bool : Bool → Bool → Bool
same_bool true b = b
same_bool false b = not b

abbrev same_limit : Option ℕ → Bool
same_limit none = true
same_limit (some n) = false

module _ (env : Surroundings) (options : NatsTransportOptions)
    (handlers : List MessageHandlerDef) where
  abbrev pub ask : RuntimeEffect → RunStep (Unit {0})
  ask = send transport env.answer

  abbrev pub config_of : MessageHandlerDef → ConsumerConfig
  config_of handler = record {
    filter_subject = handler.pattern;
    explicit_ack = true;
    max_deliver = none;
    max_ack_pending = options.max_handler_concurrency;
    ack_wait = options.event_ack_wait;
  }

  abbrev pub is_compatible : MessageHandlerDef → ConsumerConfig → Bool
  is_compatible handler c =
      str_eq c.filter_subject handler.pattern
      && (c.explicit_ack
          && (same_limit c.max_deliver
              && (c.max_ack_pending == options.max_handler_concurrency
                  && c.ack_wait == options.event_ack_wait)))

  abbrev pub check : Bool → String → RunStep (Unit {0})
  check true text = pure tt
  check false text = raise (configuration text)

  unfoldable pub start_event : String → MessageHandlerDef → RunStep (Unit {0})
  start_event service handler = do
    let durable = durable_name env.sha256 service handler.pattern
    ask (create_consumer durable (config_of handler))
    λ h.
        check (is_compatible handler (env.consumer_config h))
          (text_append "JetStream consumer "
            (text_append durable " is incompatible with the declared event handler"))
          h
    ask (open_messages durable)
    note (spawn_consumer handler)

  unfoldable pub start_command : String → MessageHandlerDef → RunStep (Unit {0})
  start_command service handler =
      ask (queue_subscribe handler.pattern service) >> note (spawn_consumer handler)

  -- The loops over the handlers of one kind.
  abbrev pub each_of :
      Bool → (MessageHandlerDef → RunStep (Unit {0})) → List MessageHandlerDef → RunStep (Unit {0})
  each_of events f [] = pure tt
  each_of events f (handler ∷ hs) =
      let rest = each_of events f hs in
      if same_bool events (is_event handler.kind) then f handler >> rest else rest

  abbrev pub check_dead_letters : Option String → RunStep (Unit {0})
  check_dead_letters none = pure tt
  check_dead_letters (some subject) =
      check (valid_nats_subject subject && not (any_matches handlers subject)) (
        text_append "dead-letter subject `"
          (text_append subject "` must be valid and disjoint from all command and event handlers"))

  abbrev pub stream_name : Option String → RunStep String
  stream_name none =
      raise (configuration "jetstream_stream is required when registering event handlers")
  stream_name (some name) = pure name

  abbrev pub create_covering_stream : List String → String → RunStep (Unit {0})
  create_covering_stream subjects name = ask (create_stream name subjects) >> λ h.
      check (all_covered (env.stream_subjects h) subjects)
        (text_append "JetStream stream "
          (text_append name " does not cover every declared event or dead-letter subject"))
        h

  unfoldable pub start_events : List String → String → RunStep (Unit {0})
  unfolding start_event
  start_events [] service = pure tt
  start_events (s ∷ subjects) service =
      check_dead_letters options.dead_letter_subject
      >> (stream_name options.jetstream_stream >>= λ name.
          create_covering_stream (s ∷ subjects) name >> each_of true (start_event service) handlers)

  abbrev pub service_of : List MessageHandlerDef → RunStep String
  service_of [] = pure ""
  service_of (h ∷ hs) = lift (queue_group options)

  -- The streams and subscriptions of a start, for the group of the service.
  unfoldable pub start_handlers : String → RunStep (Unit {0})
  unfolding start_events start_command
  start_handlers service =
      start_events (event_patterns handlers ++ listed options.dead_letter_subject) service
      >> (each_of false (start_command service) handlers >> ask flush)

  unfoldable pub start_tasks : RunStep (Unit {0})
  unfolding start_handlers
  start_tasks = service_of handlers >>= start_handlers

  abbrev pub started_by :
      Runtime → Result MicroserviceError (Unit {0}) × List RuntimeEffect → Outcome
  started_by rt (ok u, h) = (ok tt, (record rt { started = true }, h))
  started_by rt (err e, h) = (err e, (rt, h))

  abbrev pub start_unless : (cancelled started : Bool) → Runtime → List RuntimeEffect → Outcome
  start_unless true started rt h =
      (err (transport "microservice runtime is shutting down"), (rt, h))
  start_unless false true rt h = (ok tt, (rt, h))
  start_unless false false rt h = started_by rt (start_tasks h)

  unfoldable pub start : Runtime → List RuntimeEffect → Outcome
  start rt h = start_unless rt.cancelled rt.started rt h
