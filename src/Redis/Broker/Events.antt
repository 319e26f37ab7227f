-- ===== src/Redis/Broker/Events.antt =====
-- crates/caelix-microservices/src/redis_transport.rs: `process_event_entry`.
pub mod Treatment
pub mod Settlement
pub mod Kept
pub mod Redelivery
use caelix.Prelude.{
  ℕ, String, Bool, true, false, not, ◌&&◌, ltb, leb, Option, none, some, List, [], ◌∷◌, ◌==◌,
  if◌then◌else◌, length, is_empty,
}
use caelix.Errors.{HttpException}
use caelix.Metadata.{MessageHandlerKind, command, event, MessageHandlerDef}
use caelix.Messages.{
  Bytes, EventEnvelope, MessageContext, Reply, returned, raised, Encoded, bytes, refused,
  MicroserviceError, transport, protocol_version, is_client_error, into_remote,
  remote_from_exception,
}
use caelix.Messages.Effects.{Result, ok, err, pure, raise, ◌>>=◌, ◌>>◌}
use caelix.Messages.Patterns.{nats_pattern_matches}
use caelix.Redis.{RedisTransportOptions}
use caelix.Redis.Broker.{
  DeadLetterEnvelope, Entry, Effect, Environment, Step, xadd, field, ask, ack, pending_attempt,
  invoke_handler,
}

abbrev pub is_event : MessageHandlerKind → Bool
is_event command = false
is_event event = true

-- `find`: the first event handler with a pattern that matches the subject.
unfoldable pub find_handler : List MessageHandlerDef → String → Option MessageHandlerDef
find_handler [] subject = none
find_handler (handler ∷ handlers) subject =
    let rest = find_handler handlers subject in
    if is_event handler.kind && nats_pattern_matches handler.pattern subject
    then some handler
    else rest

-- The guard on a decoded event.
abbrev pub accept_event : Option EventEnvelope → Option EventEnvelope
accept_event none = none
accept_event (some ev) =
    if ev.version == protocol_version && not (is_empty ev.event_id) then some ev else none

module _ (env : Environment) (options : RedisTransportOptions) (entry : Entry) where
  abbrev pub event_context : String → EventEnvelope → ℕ → MessageContext
  event_context subject ev attempt = record {
    subject = subject;
    headers = ev.headers;
    correlation_id = none;
    deadline = none;
    delivery =
        some (record {
          stream = some entry.stream;
          consumer = some entry.consumer;
          attempt = attempt;
        });
    event_id = some ev.event_id;
  }

  abbrev pub dead_letter : String → EventEnvelope → ℕ → HttpException → ℕ → DeadLetterEnvelope
  dead_letter subject ev attempt e now = record {
    version = protocol_version;
    subject = subject;
    event = ev;
    source_stream = entry.stream;
    source_group = entry.group;
    consumer = entry.consumer;
    deliveries = attempt;
    failed_at_unix_millis = now;
    error = into_remote (remote_from_exception e);
  }

  -- A dead letter that could not be published leaves the event pending.
  abbrev pub ack_if_published : Result MicroserviceError (Unit {0}) → Step (Unit {0})
  ack_if_published (ok u) = ack env entry
  ack_if_published (err e) = pure tt

  abbrev pub publish_dead_letter : Encoded → String → Step (Unit {0})
  publish_dead_letter (refused e) stream h = (err (transport e), h)
  publish_dead_letter (bytes failure) stream h =
      let (publication, h') = ask env entry (xadd stream failure) h in
      ack_if_published publication h'

  unfoldable pub bury_event :
      Option String → String → EventEnvelope → ℕ → HttpException → Step (Unit {0})
  bury_event none subject ev attempt e h = ack env entry h
  bury_event (some stream) subject ev attempt e h =
      publish_dead_letter (env.dead_letter_bytes (dead_letter subject ev attempt e (env.now h)))
        stream h

  unfoldable pub settle_event : String → EventEnvelope → ℕ → Reply → Step (Unit {0})
  unfolding bury_event
  settle_event subject ev attempt (returned v) = ack env entry
  settle_event subject ev attempt (raised e) =
      if is_client_error e.status
      then ack env entry
      else if leb options.max_event_deliveries attempt
      then bury_event options.dead_letter_stream subject ev attempt e
      else pure tt

  unfoldable pub handle_event : Option MessageHandlerDef → String → EventEnvelope → Step (Unit {0})
  unfolding settle_event
  handle_event none subject ev = ack env entry
  handle_event (some handler) subject ev = do
    attempt ← pending_attempt env entry
    reply ← invoke_handler env entry handler (event_context subject ev attempt) ev.payload
    settle_event subject ev attempt reply

  unfoldable pub process_event :
      List MessageHandlerDef → String → Option EventEnvelope → Step (Unit {0})
  unfolding handle_event
  process_event handlers subject none = ack env entry
  process_event handlers subject (some ev) = handle_event (find_handler handlers subject) subject ev

  abbrev pub process_event_bytes :
      List MessageHandlerDef → Option String → Option Bytes → Step (Unit {0})
  process_event_bytes handlers none b = ack env entry
  process_event_bytes handlers (some subject) none = ack env entry
  process_event_bytes handlers (some subject) (some b) =
      if ltb options.max_event_bytes (length b)
      then ack env entry
      else process_event handlers subject (accept_event (env.as_event b))

  unfoldable pub process_event_entry :
      List MessageHandlerDef → List (String × Bytes) → Step (Unit {0})
  process_event_entry handlers fields =
      process_event_bytes handlers (field env.as_text fields "subject")
        (field env.as_bytes fields "envelope")
