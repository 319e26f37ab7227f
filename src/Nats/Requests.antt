-- ===== src/Nats/Requests.antt =====
-- crates/caelix-microservices/src/lib.rs: which commands reach their handler over NATS, and what is
-- replied.
use caelix.Prelude.{
  suc, ◌≤◌, ◌<◌, String, ◌≡◌, refl, sym, subst, ap, ◌∙◌, ◌↔◌, ◌⊎◌, inl, inr, Bool, true, false, ltb,
  Option, none, some, List, ◌∷◌, ◌==◌, length, is_empty, Bool-cases, arith,
}
use caelix.Metadata.{MessageHandlerDef}
use caelix.Messages.{
  Bytes, RequestEnvelope, Encoded, bytes, refused, MicroserviceClientError, decode, protocol,
  protocol_version, bounded_command_error, encode_response, body_of,
}
use caelix.Messages.Bounds.{
  IsResponse, bounded_command_error-IsResponse, encode_response-IsResponse,
}
use caelix.Messages.History.{tally}
use caelix.Messages.Effects.{Result, ok, err}
use caelix.Nats.{
  NatsTransportOptions, Message, NatsEffect, publish, publish_event, ack_with, invocation,
  NatsEnvironment, correlation_id_from_headers,
}
use caelix.Nats.Commands.{
  deadline_passed, encoded, bounded, too_large, command_context, invoke_handler, dispatch_request,
  dispatch_command,
}

abbrev pub is_invocation : NatsEffect → Bool
is_invocation (publish s b) = false
is_invocation (publish_event s b) = false
is_invocation (ack_with k) = false
is_invocation (invocation m c v) = true

module _ (env : NatsEnvironment) (options : NatsTransportOptions) (message : Message) where
  -- The correlation id of a reply is the request's, or for a request that is too large the header's.
  abbrev pub IsAddressed : String → Type 0
  IsAddressed id =
      ((request : RequestEnvelope) × (env.as_request message.payload ≡ ok request)
        × (request.correlation_id ≡ id))
      ⊎ ((options.max_request_bytes < length message.payload)
          × (correlation_id_from_headers message ≡ some id))

  -- A request within the bound, with a correlation id, of this version, whose deadline has not passed.
  pub record IsInvocable (h : List NatsEffect) (request : RequestEnvelope) : Type 0 where
    pub fits : length message.payload ≤ options.max_request_bytes
    pub decoded : env.as_request message.payload ≡ ok request
    pub identified : is_empty request.correlation_id ≡ false
    pub versioned : (request.version == protocol_version) ≡ true
    pub in_time : deadline_passed request.deadline_unix_millis (env.now h) ≡ false

  module _ (handler : MessageHandlerDef) where
    pub data Dispatched (h : List NatsEffect)
        (r : Result MicroserviceClientError Bytes × List NatsEffect) : Type 0 where
      silent : (e : MicroserviceClientError) → r ≡ (err e, h) → Dispatched h r
      answered :
          (id code text : String)
          → IsAddressed id
          → r ≡ bounded env options id code text h
          → Dispatched h r
      invoked :
          (request : RequestEnvelope)
          → IsInvocable h request
          → r ≡ invoke_handler env options handler message request h
          → Dispatched h r

    dispatch_request-Dispatched :
        (h : List NatsEffect) (x : Result String RequestEnvelope)
        → length message.payload ≤ options.max_request_bytes
        → env.as_request message.payload ≡ x
        → Dispatched h (dispatch_request env options handler message x h)
    unfolding dispatch_request
    dispatch_request-Dispatched h (err e) fits dec = silent (decode e) refl
    dispatch_request-Dispatched h (ok request) fits dec =
        let mine : IsAddressed request.correlation_id = inl (request, dec, refl) in
        elim (Bool-cases (is_empty request.correlation_id)) [
          | inl anonymous ↦
              silent (protocol "request correlation ID is missing") (rw anonymous refl)
          | inr named ↦ elim (Bool-cases (request.version == protocol_version)) [
            | inr other ↦
                answered request.correlation_id "Protocol" "unsupported request protocol version"
                  mine (rw (named, other) refl)
            | inl same ↦
                elim (Bool-cases (deadline_passed request.deadline_unix_millis (env.now h))) [
                  | inl late ↦
                      answered request.correlation_id "Deadline Exceeded"
                        "request deadline elapsed before handler invocation" mine
                        (rw (named, same, late) refl)
                  | inr ahead ↦
                      invoked request
                        (record {
                          fits = fits;
                          decoded = dec;
                          identified = named;
                          versioned = same;
                          in_time = ahead;
                        })
                        (rw (named, same, ahead) refl)
                ]
          ]
        ]

    too_large-Dispatched :
        (h : List NatsEffect) (id : Option String)
        → options.max_request_bytes < length message.payload
        → correlation_id_from_headers message ≡ id
        → Dispatched h (too_large env options id h)
    too_large-Dispatched h none large e =
        silent (protocol "request envelope exceeds configured maximum") refl
    too_large-Dispatched h (some id) large e = answered id _ _ (inr (large, e)) refl

    dispatch_command-Dispatched :
        (h : List NatsEffect) → Dispatched h (dispatch_command env options handler message h)
    unfolding dispatch_command
    dispatch_command-Dispatched h =
        elim (Bool-cases (ltb options.max_request_bytes (length message.payload))) [
          | inl large ↦
              subst (λ r. Dispatched h r) (sym (rw large refl))
                (too_large-Dispatched h (correlation_id_from_headers message) (ground arith) refl)
          | inr small ↦
              subst (λ r. Dispatched h r) (sym (rw small refl))
                (dispatch_request-Dispatched h (env.as_request message.payload) (ground arith) refl)
        ]

    invocable-eq :
        (h : List NatsEffect) (request : RequestEnvelope)
        → IsInvocable h request
        → dispatch_command env options handler message h
          ≡ invoke_handler env options handler message request h
    unfolding dispatch_command dispatch_request
    invocable-eq h request i =
        let small : ltb options.max_request_bytes (length message.payload) ≡ false =
          ground (arith, i.fits) in
        rw (small, i.decoded, i.identified, i.versioned, i.in_time) refl

    encoded-calls :
        (x : Encoded) (h : List NatsEffect)
        → tally is_invocation (encoded x h).1 ≡ tally is_invocation h
    encoded-calls (bytes b) h = refl
    encoded-calls (refused e) h = refl

    invoke_handler-calls :
        (h : List NatsEffect) (request : RequestEnvelope)
        → tally is_invocation (invoke_handler env options handler message request h).1
          ≡ suc (tally is_invocation h)
    unfolding invoke_handler
    invoke_handler-calls h request =
        let context = command_context env options handler message request in
        let h' = invocation handler context request.payload ∷ h in
        encoded-calls
          (encode_response env.response_bytes request.correlation_id
            (body_of (env.invoke h' handler context request.payload)) options.max_response_bytes)
          h'

    dispatch_command-calls :
        (h : List NatsEffect)
        → let calls = tally is_invocation (dispatch_command env options handler message h).1 in
          (calls ≡ tally is_invocation h)
          ⊎ ((calls ≡ suc (tally is_invocation h))
              × ((request : RequestEnvelope) × IsInvocable h request))
    dispatch_command-calls h = elim (dispatch_command-Dispatched h) [
      | silent e f ↦ inl (rw f refl)
      | answered id code text a f ↦ inl (
          rw f (
            encoded-calls
              (bounded_command_error env.response_bytes id code text options.max_response_bytes) h))
      | invoked request i f ↦ inr (rw f (invoke_handler-calls h request), (request, i))
    ]

-- The handler of a command is called at most once, and exactly for a request within the bound that has
-- a correlation id and this protocol version, and whose deadline has not passed.
pub dispatch_command-invokes_iff :
    (env : NatsEnvironment) (options : NatsTransportOptions) (handler : MessageHandlerDef)
    (message : Message) (h : List NatsEffect)
    → let calls = tally is_invocation (dispatch_command env options handler message h).1 in
      (calls ≤ suc (tally is_invocation h))
      × ((calls ≡ suc (tally is_invocation h))
          ↔ ((request : RequestEnvelope) × IsInvocable env options message h request))
dispatch_command-invokes_iff env options handler message h =
    let back : (a : (request : RequestEnvelope) × IsInvocable env options message h request)
        → tally is_invocation (dispatch_command env options handler message h).1
          ≡ suc (tally is_invocation h) =
      λ a.
        rw (invocable-eq env options message handler h a.0 a.1)
          (invoke_handler-calls env options message handler h a.0) in
    elim (dispatch_command-calls env options message handler h) [
      | inl none_called ↦
          (omega (arith, none_called), (λ c. absurd (omega (arith, none_called, c)), back))
      | inr (called, request) ↦ (omega (arith, called), (λ c. request, back))
    ]

encoded-ok : (x : Encoded) (h : List NatsEffect) {b : Bytes} → (encoded x h).0 ≡ ok b → x ≡ bytes b
encoded-ok (bytes c) h e = let same : c ≡ _ = cc e in ap bytes same
encoded-ok (refused m) h e = cc e

-- Every response is within the configured bound, and carries the correlation id of the request, or of
-- the header when the request itself is too large.
pub dispatch_command-IsResponse :
    (env : NatsEnvironment) (options : NatsTransportOptions) (handler : MessageHandlerDef)
    (message : Message) (h : List NatsEffect) {b : Bytes}
    → (dispatch_command env options handler message h).0 ≡ ok b
    → (id : String) × IsAddressed env options message id
      × IsResponse env.response_bytes id options.max_response_bytes b
unfolding invoke_handler
dispatch_command-IsResponse env options handler message h e =
    elim (dispatch_command-Dispatched env options message handler h) [
      | silent m f ↦ cc (ap (λ p. p.0) f, e)
      | answered id code text a f ↦
          let made =
            encoded-ok
              (bounded_command_error env.response_bytes id code text options.max_response_bytes) h
              (sym (ap (λ p. p.0) f) ∙ e) in
          (
            id,
            a,
            bounded_command_error-IsResponse env.response_bytes id code text
                options.max_response_bytes _ made,
          )
      | invoked request i f ↦
          let made = encoded-ok _ _ (sym (ap (λ p. p.0) f) ∙ e) in
          (
            request.correlation_id,
            inl (request, i.decoded, refl),
            encode_response-IsResponse env.response_bytes request.correlation_id _
                options.max_response_bytes _ made,
          )
    ]
