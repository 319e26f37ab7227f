-- ===== src/Redis/Client.antt =====
-- crates/caelix-microservices/src/redis_transport.rs: `request_inner` and `emit` of `RedisClient`.
-- The time limit around a request, which drops it wherever it is, is left out.
pub mod Matching
pub mod Roundtrip
use caelix.Prelude.{
  ℕ, ◌-◌, String, Bool, not, ltb, Option, none, some, List, [], ◌∷◌, ◌==◌, str_eq, if◌then◌else◌,
  length,
}
use Prim.Native.String.{◌++◌}
use caelix.Messages.{
  Bytes, Value, RequestEnvelope, ResponseEnvelope, ResponseBody, success, error, EventEnvelope,
  Encoded, bytes, refused, MicroserviceClientError, decode, protocol, transport_failure, remote,
  protocol_version, encode_limited, deadline_millis,
}
use caelix.Messages.Effects.{Result, ok, err, Action, pure, raise, send, ◌>>=◌, ◌>>◌}
use caelix.Messages.Patterns.{valid_nats_subject}
use caelix.Redis.{RedisTransportOptions, command_stream}

pub data ClientEffect : Type 0 where
  open_pubsub : ClientEffect
  subscribe : (channel : String) → ClientEffect
  add_request : (stream : String) → Bytes → ClientEffect
  add_event :
      (stream : String) → (max_length : Option ℕ) → (subject : String) → Bytes → ClientEffect

-- What is not the client's code. A payload is a `Value` already, or cannot be one.
pub record ClientEnvironment : Type 0 where
  pub answer : List ClientEffect → ClientEffect → Option String
  pub uuid : List ClientEffect → String
  pub now : List ClientEffect → ℕ
  pub elapsed : List ClientEffect → ℕ
  pub sha256 : String → Bytes
  pub request_bytes : RequestEnvelope → Encoded
  pub event_bytes : EventEnvelope → Encoded
  -- The next message of the subscription: none when it has ended.
  pub next_message : List ClientEffect → Option Bytes
  pub as_bytes : Bytes → Result String Bytes
  pub as_response : Bytes → Result String ResponseEnvelope
  pub as_result : Value → Result String Value

abbrev pub Call : Type 0 → Type 0
Call = Action ClientEffect MicroserviceClientError

-- `map_err` of a text
abbrev pub or_error : {A : Type 0} → (String → MicroserviceClientError) → Result String A → Call A
or_error wrap (ok a) h = (ok a, h)
or_error wrap (err e) h = (err (wrap e), h)

abbrev pub encoded : Encoded → Call Bytes
encoded (bytes b) h = (ok b, h)
encoded (refused e) h = (err (protocol e), h)

module _ (env : ClientEnvironment) (options : RedisTransportOptions) where
  abbrev pub ask : ClientEffect → Call (Unit {0})
  ask = send transport_failure env.answer

  abbrev pub body_result : ResponseBody → Call Value
  body_result (success payload) = or_error decode (env.as_result payload)
  body_result (error e) = raise (remote e)

  unfoldable pub check_response : String → ResponseEnvelope → Call Value
  check_response correlation_id response =
      if not (response.version == protocol_version)
      then raise (protocol "unsupported response protocol version")
      else if not (str_eq response.correlation_id correlation_id)
      then raise (protocol "response correlation ID does not match request")
      else body_result response.body

  unfoldable pub read_response : String → Bytes → Call Value
  unfolding check_response
  read_response correlation_id b =
      if ltb options.max_response_bytes (length b)
      then raise (protocol "response envelope exceeds configured maximum")
      else or_error decode (env.as_response b) >>= check_response correlation_id

  abbrev pub received : Option Bytes → Call Bytes
  received none = raise (transport_failure "Redis reply subscription ended")
  received (some message) = or_error decode (env.as_bytes message)

  abbrev pub request_of : String → String → Value → List ClientEffect → RequestEnvelope
  request_of correlation_id reply_channel payload h = record {
    version = protocol_version;
    correlation_id = correlation_id;
    deadline_unix_millis = deadline_millis (env.now h) (options.rpc_timeout - env.elapsed h);
    reply_channel = some reply_channel;
    headers = [];
    payload = payload;
  }

  abbrev pub encode_request : String → String → Result String Value → Call Bytes
  encode_request correlation_id reply_channel payload = or_error decode payload >>= λ value h.
      encoded
        (encode_limited env.request_bytes (request_of correlation_id reply_channel value h)
          options.max_request_bytes)
        h

  unfoldable pub send_request : String → String → String → Result String Value → Call Value
  unfolding read_response
  send_request correlation_id reply_channel subject payload = do
    ask open_pubsub
    ask (subscribe reply_channel)
    b ← encode_request correlation_id reply_channel payload
    ask (add_request (command_stream env.sha256 subject) b)
    message ← λ h. received (env.next_message h) h
    read_response correlation_id message

  unfoldable pub request_inner : String → Result String Value → Call Value
  unfolding send_request
  request_inner subject payload =
      if not (valid_nats_subject subject)
      then raise
          (protocol "command subject must contain non-empty dot-separated tokens without wildcards")
      else λ h. send_request (env.uuid h) ("caelix:reply:" ++ env.uuid h) subject payload h

  abbrev pub event_of : Value → List ClientEffect → EventEnvelope
  event_of payload h = record {
    version = protocol_version;
    event_id = env.uuid h;
    headers = [];
    payload = payload;
    published_at_unix_millis = env.now h;
  }

  unfoldable pub send_event : String → Result String Value → Call (Unit {0})
  send_event subject payload = do
    value ← or_error decode payload
    b ← λ h. encoded (encode_limited env.event_bytes (event_of value h) options.max_event_bytes) h
    ask (add_event options.event_stream options.approximate_max_event_entries subject b)

  unfoldable pub emit : String → Result String Value → Call (Unit {0})
  unfolding send_event
  emit subject payload =
      if not (valid_nats_subject subject)
      then raise
          (protocol "event subject must contain non-empty dot-separated tokens without wildcards")
      else send_event subject payload
