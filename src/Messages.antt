-- ===== src/Messages.antt =====
-- crates/caelix-microservices/src/lib.rs and crates/caelix-core/src/microservice.rs: what the NATS
-- and the Redis transport share, which is envelopes, errors, and the context of a handler.
-- A `serde_json::Value` is its JSON text, a byte a number, and a time a number of milliseconds. The
-- serializer is an argument, and so is the clock.
pub mod Effects
pub mod History
pub mod Patterns
pub mod Bounds
pub mod Policy
pub mod Pool
use caelix.Prelude.{
  ℕ, ◌+◌, ◌<◌, String, Bool, true, false, not, ◌&&◌, Option, none, some, List, [], ◌∷◌, ltb, leb,
  ◌==◌, ◌%◌, ◌^◌, if◌then◌else◌, length, is_empty, any_char, is_whitespace, str_eq,
}
use caelix.Maps.{remove}
use caelix.Errors.{Message, text, HttpException}

abbrev pub Bytes : Type 0
Bytes = List ℕ

abbrev pub Value : Type 0
Value = String

abbrev pub null : Value
null = "null"

abbrev pub Headers : Type 0
Headers = List (String × String)

-- `BTreeMap::insert`
abbrev pub insert_header : Headers → String → String → Headers
insert_header hs name value = (name, value) ∷ remove hs name

abbrev pub protocol_version : ℕ
protocol_version = 1

abbrev pub minimum_response_envelope_bytes : ℕ
minimum_response_envelope_bytes = 256

pub record RemoteError : Type 0 where
  pub code : String
  pub message : Message
  pub details : Option Value
  pub retryable : Bool

pub data MicroserviceClientError : Type 0 where
  timeout no_responder : MicroserviceClientError
  decode protocol transport_failure : String → MicroserviceClientError
  remote : RemoteError → MicroserviceClientError

pub data MicroserviceError : Type 0 where
  transport configuration : String → MicroserviceError
  framework : Message → MicroserviceError

pub record RequestEnvelope : Type 0 where
  pub version : ℕ
  pub correlation_id : String
  pub deadline_unix_millis : Option ℕ
  pub reply_channel : Option String
  pub headers : Headers
  pub payload : Value

pub data ResponseBody : Type 0 where
  success : Value → ResponseBody
  error : RemoteError → ResponseBody

pub record ResponseEnvelope : Type 0 where
  pub version : ℕ
  pub correlation_id : String
  pub body : ResponseBody

pub record EventEnvelope : Type 0 where
  pub version : ℕ
  pub event_id : String
  pub headers : Headers
  pub payload : Value
  pub published_at_unix_millis : ℕ

pub record MessageDelivery : Type 0 where
  pub stream : Option String
  pub consumer : Option String
  pub attempt : ℕ

-- The cancellation token is left out: only handlers read it.
pub record MessageContext : Type 0 where
  pub subject : String
  pub headers : Headers
  pub correlation_id : Option String
  pub deadline : Option ℕ
  pub delivery : Option MessageDelivery
  pub event_id : Option String

abbrev pub delivery_attempt_of : MessageContext → ℕ
delivery_attempt_of c = elim c.delivery [ none ↦ 0 | some d ↦ d.attempt ]

-- What a handler returns.
pub data Reply : Type 0 where
  returned : Option Value → Reply
  raised : HttpException → Reply

-- `StatusCode::is_client_error` and `is_server_error`
abbrev pub is_client_error : ℕ → Bool
is_client_error status = leb 400 status && ltb status 500

abbrev pub is_server_error : ℕ → Bool
is_server_error status = leb 500 status && ltb status 600

unfoldable pub remote_from_exception : HttpException → MicroserviceClientError
remote_from_exception e = remote (record {
  code = e.error;
  message = if is_client_error e.status then e.message else text "Internal Server Error";
  details = none;
  retryable = is_server_error e.status;
})

abbrev internal_error : RemoteError
internal_error = record {
  code = "Internal Server Error";
  message = text "Internal Server Error";
  details = none;
  retryable = false;
}

abbrev pub into_remote : MicroserviceClientError → RemoteError
into_remote (remote e) = e
into_remote timeout = internal_error
into_remote no_responder = internal_error
into_remote (decode s) = internal_error
into_remote (protocol s) = internal_error
into_remote (transport_failure s) = internal_error

-- `serde_json::to_vec`
pub data Encoded : Type 0 where
  bytes : Bytes → Encoded
  refused : String → Encoded

abbrev pub limited : ℕ → Encoded → Encoded
limited maximum (bytes b) =
    if ltb maximum (length b) then refused "envelope exceeds configured maximum" else bytes b
limited maximum (refused e) = refused e

unfoldable pub encode_limited {ℓ} : {A : Type ℓ} → (A → Encoded) → A → ℕ → Encoded
encode_limited to_vec value maximum = limited maximum (to_vec value)

abbrev pub plain_error : String → String → RemoteError
plain_error code message = record {
  code = code;
  message = text message;
  details = none;
  retryable = false;
}

abbrev pub response : String → ResponseBody → ResponseEnvelope
response correlation_id body = record {
  version = protocol_version;
  correlation_id = correlation_id;
  body = body;
}

unfoldable pub bounded_command_error :
    (ResponseEnvelope → Encoded) → String → String → String → ℕ → Encoded
unfolding encode_limited
bounded_command_error to_vec correlation_id code message maximum =
    encode_limited to_vec (response correlation_id (error (plain_error code message))) maximum

-- The body of a reply, from what the handler returns.
abbrev pub or_null : Option Value → Value
or_null none = null
or_null (some v) = v

unfoldable pub body_of : Reply → ResponseBody
unfolding remote_from_exception
body_of (returned v) = success (or_null v)
body_of (raised e) = error (into_remote (remote_from_exception e))

abbrev pub or_bounded : Encoded → Encoded → Encoded
or_bounded (bytes b) fallback = bytes b
or_bounded (refused e) fallback = fallback

-- The response, or a bounded error in place of one that does not fit.
unfoldable pub encode_response : (ResponseEnvelope → Encoded) → String → ResponseBody → ℕ → Encoded
unfolding bounded_command_error
encode_response to_vec correlation_id body maximum =
    or_bounded (encode_limited to_vec (response correlation_id body) maximum) (
      bounded_command_error to_vec correlation_id "Protocol"
        "response envelope exceeds configured maximum" maximum)

-- `str::trim` leaves nothing.
abbrev pub is_blank : String → Bool
is_blank s = not (any_char (λ c. not (is_whitespace c)) s)

-- The name of a service, unless it is blank.
abbrev pub named : Option String → Option String
named none = none
named (some s) = if is_blank s then none else some s

-- `checked_add` on the milliseconds since 1970, which are a u64.
abbrev pub deadline_millis : ℕ → ℕ → Option ℕ
deadline_millis now span =
    let deadline = now + span % 2 ^ 64 in if ltb deadline (2 ^ 64) then some deadline else none
