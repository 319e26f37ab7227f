-- ===== src/Redis/Client/Matching.antt =====
-- crates/caelix-microservices/src/redis_transport.rs: which responses a client accepts, and a request
-- from a client through a server and back.
use caelix.Prelude.{
  ◌≤◌, String, ◌≡◌, refl, sym, ap, ◌∙◌, inl, inr, true, ltb, Option, none, some, List, ◌∷◌, ◌==◌,
  ==_iff, str_eq, str_eq_iff, length, Bool-cases, arith,
}
use Prim.Native.String.{◌++◌}
use caelix.Messages.{
  Bytes, Value, ResponseEnvelope, ResponseBody, success, error, Encoded, bytes, refused,
  protocol_version, encode_limited, MicroserviceClientError, decode, transport_failure,
}
use caelix.Messages.Bounds.{limited-eq}
use caelix.Messages.Effects.{Result, ok, err, continue-ok, send-ok}
use caelix.Messages.Patterns.{valid_nats_subject}
use caelix.Redis.{RedisTransportOptions, command_stream}
use caelix.Redis.Client.{
  ClientEffect, open_pubsub, subscribe, add_request, ClientEnvironment, ask, or_error, encoded,
  received, encode_request, body_result, check_response, read_response, request_of, send_request,
  request_inner,
}

-- The response that a successful call has read.
pub record IsMatching (env : ClientEnvironment) (options : RedisTransportOptions)
    (correlation_id : String) (v : Value) (b : Bytes) : Type 0 where
  pub envelope : ResponseEnvelope
  pub payload : Value
  pub fits : length b ≤ options.max_response_bytes
  pub decoded : env.as_response b ≡ ok envelope
  pub versioned : envelope.version ≡ protocol_version
  pub correlated : envelope.correlation_id ≡ correlation_id
  pub successful : envelope.body ≡ success payload
  pub converted : env.as_result payload ≡ ok v

or_error-ok :
    {A : Type 0} (wrap : String → MicroserviceClientError) (x : Result String A)
    (h : List ClientEffect) {a : A} {h' : List ClientEffect}
    → or_error wrap x h ≡ (ok a, h')
    → (x ≡ ok a) × (h' ≡ h)
or_error-ok wrap (ok b) h e =
    let same : ok b ≡ ok _ = ap (λ p. p.0) e in
    let same' : b ≡ _ = cc same in (ap ok same', sym (ap (λ p. p.1) e))
or_error-ok wrap (err m) h e = cc e

module _ (env : ClientEnvironment) (options : RedisTransportOptions) (correlation_id : String)
    (v : Value) where
  body_result-ok :
      (body : ResponseBody) (h : List ClientEffect) {h' : List ClientEffect}
      → body_result env options body h ≡ (ok v, h')
      → ((p : Value) × (body ≡ success p) × (env.as_result p ≡ ok v)) × (h' ≡ h)
  body_result-ok (error e) h r = cc r
  body_result-ok (success p) h r =
      let (converted, same) = or_error-ok decode (env.as_result p) h r in
      ((p, refl, converted), same)

  read_response-IsMatching :
      (b : Bytes) (h : List ClientEffect) {h' : List ClientEffect}
      → read_response env options correlation_id b h ≡ (ok v, h')
      → IsMatching env options correlation_id v b × (h' ≡ h)
  unfolding read_response check_response
  read_response-IsMatching b h r = elim (Bool-cases (ltb options.max_response_bytes (length b))) [
    | inl large ↦ cc (rw large at r)
    | inr small ↦
        let (envelope, h1, decoded, r1) =
          continue-ok (or_error decode (env.as_response b) h)
            (check_response env options correlation_id) (rw small at r) in
        let (decoded', same1) = or_error-ok decode (env.as_response b) h decoded in
        elim (Bool-cases (envelope.version == protocol_version)) [
          | inr other ↦ cc (rw other at r1)
          | inl version ↦ elim (Bool-cases (str_eq envelope.correlation_id correlation_id)) [
            | inr other ↦ cc (rw (version, other) at r1)
            | inl same ↦
                let ((p, body, converted), same2) =
                  body_result-ok envelope.body h1 (rw (version, same) at r1) in
                (
                  record {
                    envelope = envelope;
                    payload = p;
                    fits = ground arith;
                    decoded = decoded';
                    versioned = (==_iff envelope.version protocol_version).0 version;
                    correlated = (str_eq_iff envelope.correlation_id correlation_id).0 same;
                    successful = body;
                    converted = converted;
                  },
                  same2 ∙ same1,
                )
          ]
        ]
  ]

encoded-ok :
    (x : Encoded) (h : List ClientEffect) {b : Bytes} {h' : List ClientEffect}
    → encoded x h ≡ (ok b, h')
    → (x ≡ bytes b) × (h' ≡ h)
encoded-ok (bytes c) h e =
    let same : ok c ≡ ok _ = ap (λ p. p.0) e in
    let same' : c ≡ _ = cc same in (ap bytes same', sym (ap (λ p. p.1) e))
encoded-ok (refused m) h e = cc e

received-ok :
    (env : ClientEnvironment) (options : RedisTransportOptions) (m : Option Bytes)
    (h : List ClientEffect) {b : Bytes} {h' : List ClientEffect}
    → received env options m h ≡ (ok b, h')
    → ((message : Bytes) × (m ≡ some message) × (env.as_bytes message ≡ ok b)) × (h' ≡ h)
received-ok env options none h e = cc e
received-ok env options (some message) h e =
    let (same, rest) = or_error-ok decode (env.as_bytes message) h e in
    ((message, refl, same), rest)

-- The exchange behind a successful call: the client subscribes to the reply channel before the
-- request is added to the stream, and then reads a response that matches.
pub record IsExchange (env : ClientEnvironment) (options : RedisTransportOptions) (subject : String)
    (v : Value) (h h' : List ClientEffect) : Type 0 where
  pub request : Bytes
  pub message : Bytes
  pub reply : Bytes
  pub bounded : length request ≤ options.max_request_bytes
  pub sent :
      h'
      ≡ add_request (command_stream env.sha256 subject) request
        ∷ subscribe ("caelix:reply:" ++ env.uuid h)
        ∷ open_pubsub
        ∷ h
  pub arrived : env.next_message h' ≡ some message
  pub converted : env.as_bytes message ≡ ok reply
  pub matching : IsMatching env options (env.uuid h) v reply

module _ (env : ClientEnvironment) (options : RedisTransportOptions) where
  encode_request-ok :
      (correlation_id channel : String) (payload : Result String Value) (h : List ClientEffect)
      {b : Bytes} {h' : List ClientEffect}
      → encode_request env options correlation_id channel payload h ≡ (ok b, h')
      → (length b ≤ options.max_request_bytes) × (h' ≡ h)
  unfolding encode_limited
  encode_request-ok correlation_id channel payload h e =
      let (value, h1, converted, rest) =
        continue-ok (or_error decode payload h)
          (λ value g.
            encoded
              (encode_limited env.request_bytes
                (request_of env options correlation_id channel value g) options.max_request_bytes)
              g)
          e in
      let (same, same1) = or_error-ok decode payload h converted in
      let (bytes_of, same2) =
        encoded-ok
          (encode_limited env.request_bytes (request_of env options correlation_id channel value h1)
            options.max_request_bytes)
          h1 rest in
      ((limited-eq options.max_request_bytes _ _ bytes_of).1, same2 ∙ same1)

  send_request-ok :
      (correlation_id channel subject : String) (payload : Result String Value)
      (h : List ClientEffect) {v : Value} {h' : List ClientEffect}
      → send_request env options correlation_id channel subject payload h ≡ (ok v, h')
      → (b : Bytes) × (m : Bytes) × (r : Bytes) × (length b ≤ options.max_request_bytes)
        × (h'
            ≡ add_request (command_stream env.sha256 subject) b
              ∷ subscribe channel
              ∷ open_pubsub
              ∷ h)
        × (env.next_message h' ≡ some m)
        × (env.as_bytes m ≡ ok r)
        × IsMatching env options correlation_id v r
  unfolding send_request
  send_request-ok correlation_id channel subject payload h e =
      let (u1, h1, e1, k1) = continue-ok (ask env options open_pubsub h) _ e in
      let (u2, h2, e2, k2) = continue-ok (ask env options (subscribe channel) h1) _ k1 in
      let (b, h3, e3, k3) =
        continue-ok (encode_request env options correlation_id channel payload h2) _ k2 in
      let stream = command_stream env.sha256 subject in
      let (u4, h4, e4, k4) = continue-ok (ask env options (add_request stream b) h3) _ k3 in
      let (r, h5, e5, k5) = continue-ok (received env options (env.next_message h4) h4) _ k4 in
      let s1 = (send-ok transport_failure env.answer open_pubsub h e1).1 in
      let s2 = (send-ok transport_failure env.answer (subscribe channel) h1 e2).1 in
      let (fits, s3) = encode_request-ok correlation_id channel payload h2 e3 in
      let s4 = (send-ok transport_failure env.answer (add_request stream b) h3 e4).1 in
      let ((m, arrived, converted), s5) = received-ok env options (env.next_message h4) h4 e5 in
      let (matching, s6) = read_response-IsMatching env options correlation_id _ r h5 k5 in
      let same : _ ≡ h4 = s6 ∙ s5 in
      (b, m, r, fits, cc (same, s4, s3, s2, s1), cc (same, arrived), converted, matching)

-- A call succeeds only for a subject without wildcards, and only with the result of a response that
-- carries the call's correlation id, the protocol version and a success, within the bounds.
pub request_inner-IsExchange :
    (env : ClientEnvironment) (options : RedisTransportOptions) (subject : String)
    (payload : Result String Value) (h : List ClientEffect) {v : Value} {h' : List ClientEffect}
    → request_inner env options subject payload h ≡ (ok v, h')
    → (valid_nats_subject subject ≡ true) × IsExchange env options subject v h h'
unfolding request_inner
request_inner-IsExchange env options subject payload h e =
    elim (Bool-cases (valid_nats_subject subject)) [
      | inr bad ↦ cc (rw bad at e)
      | inl good ↦
          let (b, m, r, fits, sent, arrived, converted, matching) =
            send_request-ok env options (env.uuid h) ("caelix:reply:" ++ env.uuid h) subject payload
              h (rw good at e) in
          (
            good,
            record {
              request = b;
              message = m;
              reply = r;
              bounded = fits;
              sent = sent;
              arrived = arrived;
              converted = converted;
              matching = matching;
            },
          )
    ]
