-- ===== src/Nats/Events.antt =====
-- crates/caelix-microservices/src/lib.rs: `process_event`.
use caelix.Prelude.{String, ltb, leb, Option, none, some, if◌then◌else◌, length}
use caelix.Errors.{HttpException}
use caelix.Metadata.{MessageHandlerDef}
use caelix.Messages.{
  Bytes, EventEnvelope, MessageContext, Reply, returned, raised, Encoded, bytes, refused,
  MicroserviceError, transport, is_client_error, into_remote, remote_from_exception,
}
use caelix.Messages.Effects.{Result, ok, err, Action, raise, send, note, times, ◌>>=◌, ◌>>◌}
use caelix.Redis.Broker.Events.{accept_event}
use caelix.Nats.{
  NatsTransportOptions, HeaderMap, Info, NatsEffect, publish_event, ack_with, invocation, ack, term,
  nak, progress, NatsDeadLetter, NatsEnvironment, propagated_headers,
}

pub record JetMessage : Type 0 where
  pub subject : String
  pub headers : Option HeaderMap
  pub payload : Bytes
  pub info : Result String Info

abbrev pub Step : Type 0 → Type 0
Step = Action NatsEffect MicroserviceError

module _ (env : NatsEnvironment) (options : NatsTransportOptions) (message : JetMessage) where
  abbrev pub ask : NatsEffect → Step (Unit {0})
  ask = send transport env.answer

  abbrev pub event_context : Info → EventEnvelope → MessageContext
  event_context info ev = record {
    subject = message.subject;
    headers = propagated_headers ev.headers message.headers;
    correlation_id = none;
    deadline = none;
    delivery = some (record {
      stream = some info.stream;
      consumer = some info.consumer;
      attempt = info.delivered;
    });
    event_id = some ev.event_id;
  }

  abbrev pub nats_dead_letter : Info → EventEnvelope → HttpException → NatsDeadLetter
  nats_dead_letter info ev e = record {
    subject = message.subject;
    event_id = ev.event_id;
    payload = ev.payload;
    stream = info.stream;
    consumer = info.consumer;
    deliveries = info.delivered;
    error = into_remote (remote_from_exception e);
  }

  -- What a failed publication, or one that cannot be encoded, comes to: the event is tried again.
  abbrev pub term_if_published : Result MicroserviceError (Unit {0}) → Step (Unit {0})
  term_if_published (ok u) = ask (ack_with term)
  term_if_published (err e) = ask (ack_with (nak options.event_retry_delay))

  abbrev pub publish_dead_letter : Encoded → String → Step (Unit {0})
  publish_dead_letter (refused e) subject h = term_if_published (err (transport e)) h
  publish_dead_letter (bytes b) subject h =
      let (published, h') = ask (publish_event subject b) h in term_if_published published h'

  unfoldable pub bury_message :
      Option String → Info → EventEnvelope → HttpException → Step (Unit {0})
  bury_message none info ev e = ask (ack_with term)
  bury_message (some subject) info ev e =
      publish_dead_letter (env.dead_letter_bytes (nats_dead_letter info ev e)) subject

  unfoldable pub settle_message : Info → EventEnvelope → Reply → Step (Unit {0})
  unfolding bury_message
  settle_message info ev (returned v) = ask (ack_with ack)
  settle_message info ev (raised e) =
      if is_client_error e.status
      then ask (ack_with term)
      else if leb options.max_event_deliveries info.delivered
      then bury_message options.dead_letter_subject info ev e
      else ask (ack_with (nak options.event_retry_delay))

  -- While the handler runs, the broker is told so at each half of the time that it waits.
  abbrev pub report_progress : Step (Unit {0})
  report_progress h = times (env.ticks h) (ask (ack_with progress)) h

  abbrev pub invoke_event_handler : MessageHandlerDef → Info → EventEnvelope → Step Reply
  invoke_event_handler handler info ev =
      note (invocation handler (event_context info ev) ev.payload)
      >> (report_progress >> λ h. (ok (env.invoke h handler (event_context info ev) ev.payload), h))

  unfoldable pub process_accepted :
      MessageHandlerDef → Info → Option EventEnvelope → Step (Unit {0})
  unfolding settle_message
  process_accepted handler info none = ask (ack_with term)
  process_accepted handler info (some ev) =
      invoke_event_handler handler info ev >>= settle_message info ev

  unfoldable pub process_with_info : MessageHandlerDef → Result String Info → Step (Unit {0})
  unfolding process_accepted
  process_with_info handler (err e) = raise (transport e)
  process_with_info handler (ok info) =
      if ltb options.max_event_bytes (length message.payload)
      then ask (ack_with term)
      else process_accepted handler info (accept_event (env.as_event message.payload))

  unfoldable pub process_message : MessageHandlerDef → Step (Unit {0})
  unfolding process_with_info
  process_message handler = process_with_info handler message.info
