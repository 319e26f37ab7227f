-- ===== src/Redis/Broker/Commands.antt =====
-- crates/caelix-microservices/src/redis_transport.rs: `process_command_entry` and what it calls.
pub mod Admission
pub mod Answers
pub mod Completion
pub mod Replies
use caelix.Prelude.{
  String, Bool, true, not, ◌||◌, ltb, Option, none, some, List, ◌==◌, if◌then◌else◌, length,
  is_empty, byte_len,
}
use caelix.Metadata.{MessageHandlerDef}
use caelix.Messages.{
  Bytes, RequestEnvelope, ResponseBody, error, MessageContext, Encoded, bytes, refused,
  configuration, plain_error, protocol_version, body_of, encode_response,
}
use caelix.Messages.Effects.{err, also, pure, ◌>>=◌, ◌>>◌}
use caelix.Redis.{RedisTransportOptions}
use caelix.Redis.Broker.{
  Entry, Environment, Step, publish, field, ask, ack_delete, deadline_elapsed, invoke_handler,
}

-- The reply channel of a request can be used.
abbrev pub bad_channel : Option String → Bool
bad_channel none = true
bad_channel (some channel) = is_empty channel || ltb 256 (byte_len channel)

abbrev pub is_unanswerable : RequestEnvelope → Bool
is_unanswerable request =
    is_empty request.correlation_id
    || (ltb 128 (byte_len request.correlation_id) || bad_channel request.reply_channel)

abbrev pub command_context : MessageHandlerDef → RequestEnvelope → MessageContext
command_context handler request = record {
  subject = handler.pattern;
  headers = request.headers;
  correlation_id = some request.correlation_id;
  deadline = request.deadline_unix_millis;
  delivery = none;
  event_id = none;
}

module _ (env : Environment) (options : RedisTransportOptions) (entry : Entry) where
  abbrev publish_reply : Option String → Bytes → Step (Unit {0})
  publish_reply none b = pure tt
  publish_reply (some channel) b = ask env entry (publish channel b)

  -- A reply that could not be sent still completes the command.
  abbrev pub complete_with : Encoded → Option String → Step (Unit {0})
  complete_with (bytes b) channel h =
      let (publish_result, h1) = publish_reply channel b h in
      let (completion_result, h2) = ack_delete env entry h1 in
      (also completion_result publish_result, h2)
  complete_with (refused e) channel h =
      let (completion_result, h1) = ack_delete env entry h in
      (also completion_result (err (configuration e)), h1)

  unfoldable pub publish_command_response_and_complete :
      RequestEnvelope → ResponseBody → Step (Unit {0})
  publish_command_response_and_complete request body =
      complete_with
        (encode_response env.response_bytes request.correlation_id body options.max_response_bytes)
        request.reply_channel

  unfoldable pub publish_command_error_and_complete :
      RequestEnvelope → String → String → Step (Unit {0})
  unfolding publish_command_response_and_complete
  publish_command_error_and_complete request code message =
      publish_command_response_and_complete request (error (plain_error code message))

  module _ (handler : MessageHandlerDef) where
    unfoldable pub invoke_command : RequestEnvelope → Step (Unit {0})
    unfolding publish_command_response_and_complete
    invoke_command request =
        invoke_handler env entry handler (command_context handler request) request.payload
        >>= λ reply. publish_command_response_and_complete request (body_of reply)

    unfoldable pub before_deadline : Bool → RequestEnvelope → Step (Unit {0})
    unfolding invoke_command publish_command_error_and_complete
    before_deadline elapsed request =
        if elapsed
        then publish_command_error_and_complete request "Deadline Exceeded"
            "request deadline elapsed before handler invocation"
        else invoke_command request

    unfoldable pub process_request : Option RequestEnvelope → Step (Unit {0})
    unfolding before_deadline publish_command_error_and_complete deadline_elapsed
    process_request none = ack_delete env entry
    process_request (some request) =
        if is_unanswerable request
        then ack_delete env entry
        else if not (request.version == protocol_version)
        then publish_command_error_and_complete request "Protocol"
            "unsupported request protocol version"
        else λ h.
            before_deadline (deadline_elapsed env entry h request.deadline_unix_millis) request h

    unfoldable pub process_envelope : Option Bytes → Step (Unit {0})
    unfolding process_request
    process_envelope none = ack_delete env entry
    process_envelope (some b) =
        if ltb options.max_request_bytes (length b)
        then ack_delete env entry
        else process_request (env.as_request b)

    unfoldable pub process_command_entry : List (String × Bytes) → Step (Unit {0})
    unfolding process_envelope
    process_command_entry fields = process_envelope (field env.as_bytes fields "envelope")
