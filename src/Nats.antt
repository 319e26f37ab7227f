-- ===== src/Nats.antt =====
-- crates/caelix-microservices/src/lib.rs: the options of the NATS transport, and what its handlers
-- act on.
-- `Environment` holds what is not the transport's code, as for Redis. A delivery count, which JetStream
-- starts at one, is not negative.
pub mod Commands
pub mod Events
pub mod Settlement
pub mod Requests
pub mod Runtime
use caelix.Prelude.{
  ℕ, ◌≤◌, ◌*◌, max, String, Option, none, some, List, [], ◌∷◌, ltb, ◌||◌, is_empty, byte_len,
  if◌then◌else◌,
}
use caelix.Maps.{get}
use caelix.Metadata.{MessageHandlerDef}
use caelix.Messages.{
  Bytes, Value, Headers, insert_header, RemoteError, RequestEnvelope, ResponseEnvelope,
  EventEnvelope, MessageContext, Reply, Encoded, MicroserviceError, transport, configuration,
  minimum_response_envelope_bytes, named,
}
use caelix.Messages.Effects.{Result, ok, err, Action, send}

pub record NatsTransportOptions : Type 0 where
  pub server : String
  pub service_name : Option String
  pub rpc_timeout : ℕ
  pub max_request_bytes : ℕ
  pub max_response_bytes : ℕ
  pub max_event_bytes : ℕ
  pub max_handler_concurrency : ℕ
  pub shutdown_timeout : ℕ
  pub jetstream_stream : Option String
  pub dead_letter_subject : Option String
  pub max_event_deliveries : ℕ
  pub event_retry_delay : ℕ
  pub event_ack_wait : ℕ

-- `new`
abbrev pub nats_defaults : String → NatsTransportOptions
nats_defaults server = record {
  server = server;
  service_name = none;
  rpc_timeout = 5000;
  max_request_bytes = 1024 * 1024;
  max_response_bytes = 1024 * 1024;
  max_event_bytes = 1024 * 1024;
  max_handler_concurrency = 64;
  shutdown_timeout = 10000;
  jetstream_stream = none;
  dead_letter_subject = none;
  max_event_deliveries = 5;
  event_retry_delay = 1000;
  event_ack_wait = 30000;
}

-- The setters.
pub data NatsSetter : Type 0 where
  service_name jetstream_stream dead_letter_subject : String → NatsSetter
  rpc_timeout max_request_bytes max_response_bytes max_event_bytes : ℕ → NatsSetter
  max_handler_concurrency shutdown_timeout max_event_deliveries : ℕ → NatsSetter
  event_retry_delay event_ack_wait : ℕ → NatsSetter

abbrev pub set_nats_option : NatsSetter → NatsTransportOptions → NatsTransportOptions
set_nats_option (service_name v) o = record o { service_name = some v }
set_nats_option (jetstream_stream v) o = record o { jetstream_stream = some v }
set_nats_option (dead_letter_subject v) o = record o { dead_letter_subject = some v }
set_nats_option (rpc_timeout v) o = record o { rpc_timeout = v }
set_nats_option (max_request_bytes v) o = record o { max_request_bytes = max v 1 }
set_nats_option (max_response_bytes v) o = record o {
  max_response_bytes = max v minimum_response_envelope_bytes;
}
set_nats_option (max_event_bytes v) o = record o { max_event_bytes = max v 1 }
set_nats_option (max_handler_concurrency v) o = record o { max_handler_concurrency = max v 1 }
set_nats_option (shutdown_timeout v) o = record o { shutdown_timeout = v }
set_nats_option (max_event_deliveries v) o = record o { max_event_deliveries = max v 1 }
set_nats_option (event_retry_delay v) o = record o { event_retry_delay = v }
set_nats_option (event_ack_wait v) o = record o { event_ack_wait = max v 10 }

abbrev or_missing : Option String → Result MicroserviceError String
or_missing none = err (configuration "service_name is required for command queue groups")
or_missing (some name) = ok name

unfoldable pub queue_group : NatsTransportOptions → Result MicroserviceError String
queue_group o = or_missing (named o.service_name)

-- A header map: the values of each name, in order.
abbrev pub HeaderMap : Type 0
HeaderMap = List (String × List String)

pub record Message : Type 0 where
  pub subject : String
  pub reply : Option String
  pub headers : Option HeaderMap
  pub payload : Bytes

-- `message.info()`
pub record Info : Type 0 where
  pub stream : String
  pub consumer : String
  pub delivered : ℕ

pub data AckKind : Type 0 where
  ack term progress : AckKind
  nak : (delay : ℕ) → AckKind

pub data NatsEffect : Type 0 where
  publish : (subject : String) → Bytes → NatsEffect
  publish_event : (subject : String) → Bytes → NatsEffect
  ack_with : AckKind → NatsEffect
  invocation : MessageHandlerDef → MessageContext → Value → NatsEffect

pub record NatsDeadLetter : Type 0 where
  pub subject : String
  pub event_id : String
  pub payload : Value
  pub stream : String
  pub consumer : String
  pub deliveries : ℕ
  pub error : RemoteError

pub record NatsEnvironment : Type 0 where
  pub answer : List NatsEffect → NatsEffect → Option String
  pub now : List NatsEffect → ℕ
  pub ticks : List NatsEffect → ℕ
  pub invoke : List NatsEffect → MessageHandlerDef → MessageContext → Value → Reply
  pub as_request : Bytes → Result String RequestEnvelope
  pub as_event : Bytes → Option EventEnvelope
  pub response_bytes : ResponseEnvelope → Encoded
  pub dead_letter_bytes : NatsDeadLetter → Encoded

abbrev last : List String → Option String
last [] = none
last (v ∷ []) = some v
last (v ∷ w ∷ vs) = last (w ∷ vs)

abbrev usable_id : Option String → Option String
usable_id none = none
usable_id (some s) = if ltb 128 (byte_len s) || is_empty s then none else some s

abbrev all_values : Option (List String) → List String
all_values none = []
all_values (some vs) = vs

unfoldable pub correlation_id_from_headers : Message → Option String
correlation_id_from_headers m = elim m.headers [
  | none ↦ none
  | some hs ↦ usable_id (last (all_values (get hs "Caelix-Correlation-Id")))
]

abbrev insert_last : Option String → String → Headers → Headers
insert_last none name hs = hs
insert_last (some v) name hs = insert_header hs name v

abbrev pub propagate : Headers → HeaderMap → Headers
propagate envelope [] = envelope
propagate envelope ((name, values) ∷ hs) = propagate (insert_last (last values) name envelope) hs

abbrev pub propagated_headers : Headers → Option HeaderMap → Headers
propagated_headers envelope none = envelope
propagated_headers envelope (some hs) = propagate envelope hs
