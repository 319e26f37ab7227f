-- ===== src/Nats/Commands.antt =====
-- crates/caelix-microservices/src/lib.rs: `dispatch_command` and `process_command`.
use caelix.Prelude.{
  ℕ, String, Bool, false, not, ltb, Option, none, some, ◌∷◌, ◌==◌, if◌then◌else◌, length, is_empty,
}
use caelix.Metadata.{MessageHandlerDef}
use caelix.Messages.{
  Bytes, RequestEnvelope, MessageContext, Reply, Encoded, bytes, refused, MicroserviceError,
  transport, MicroserviceClientError, decode, protocol, protocol_version, bounded_command_error,
  encode_response, body_of,
}
use caelix.Messages.Effects.{Result, ok, err, Action, pure, raise, send}
use caelix.Nats.{
  NatsTransportOptions, Message, NatsEffect, publish, invocation, NatsEnvironment,
  correlation_id_from_headers, propagated_headers,
}

abbrev pub Dispatch : Type 0 → Type 0
Dispatch = Action NatsEffect MicroserviceClientError

abbrev pub encoded : Encoded → Dispatch Bytes
encoded (bytes b) = pure b
encoded (refused e) = raise (protocol e)

abbrev pub deadline_passed : Option ℕ → ℕ → Bool
deadline_passed none now = false
deadline_passed (some deadline) now = ltb deadline now

module _ (env : NatsEnvironment) (options : NatsTransportOptions) where
  abbrev pub bounded : String → String → String → Dispatch Bytes
  bounded correlation_id code message = encoded (
      bounded_command_error env.response_bytes correlation_id code message
        options.max_response_bytes)

  abbrev pub too_large : Option String → Dispatch Bytes
  too_large none = raise (protocol "request envelope exceeds configured maximum")
  too_large (some correlation_id) =
      bounded correlation_id "Payload Too Large" "request envelope exceeds configured maximum"

  module _ (handler : MessageHandlerDef) (message : Message) where
    abbrev pub command_context : RequestEnvelope → MessageContext
    command_context request = record {
      subject = message.subject;
      headers = propagated_headers request.headers message.headers;
      correlation_id = some request.correlation_id;
      deadline = request.deadline_unix_millis;
      delivery = none;
      event_id = none;
    }

    abbrev pub respond : RequestEnvelope → Reply → Dispatch Bytes
    respond request reply = encoded (
        encode_response env.response_bytes request.correlation_id (body_of reply)
          options.max_response_bytes)

    unfoldable pub invoke_handler : RequestEnvelope → Dispatch Bytes
    invoke_handler request h =
        let h' = invocation handler (command_context request) request.payload ∷ h in
        respond request (env.invoke h' handler (command_context request) request.payload) h'

    unfoldable pub dispatch_request : Result String RequestEnvelope → Dispatch Bytes
    unfolding invoke_handler
    dispatch_request (err e) h = raise (decode e) h
    dispatch_request (ok request) h =
        if is_empty request.correlation_id
        then raise (protocol "request correlation ID is missing") h
        else if not (request.version == protocol_version)
        then bounded request.correlation_id "Protocol" "unsupported request protocol version" h
        else if deadline_passed request.deadline_unix_millis (env.now h)
        then bounded request.correlation_id "Deadline Exceeded"
            "request deadline elapsed before handler invocation" h
        else invoke_handler request h

    unfoldable pub dispatch_command : Dispatch Bytes
    unfolding dispatch_request
    dispatch_command =
        if ltb options.max_request_bytes (length message.payload)
        then too_large (correlation_id_from_headers message)
        else dispatch_request (env.as_request message.payload)

    -- A request without a reply subject, and a dispatch that failed, send nothing.
    abbrev pub send_response :
        Option String
        → Result MicroserviceClientError Bytes
        → Action NatsEffect MicroserviceError (Unit {0})
    send_response none r h = (ok tt, h)
    send_response (some reply) (err e) h = (ok tt, h)
    send_response (some reply) (ok b) h = send transport env.answer (publish reply b) h

    unfoldable pub process_command : Action NatsEffect MicroserviceError (Unit {0})
    unfolding dispatch_command
    process_command h =
        let (response, h') = dispatch_command h in send_response message.reply response h'
