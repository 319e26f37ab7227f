-- ===== src/Redis/Client/Roundtrip.antt =====
-- crates/caelix-microservices/src/redis_transport.rs: a command from a client through a stream entry
-- and a handler, and its reply back.
use caelix.Prelude.{
  ℕ, ◌≤◌, ◌<◌, String, ◌≡◌, refl, true, false, none, some, List, [], ◌∷◌, length, ltb, str_eq_refl,
  arith,
}
use Prim.Native.String.{◌++◌}
use caelix.Metadata.{MessageHandlerDef}
use caelix.Messages.{Bytes, Value, RequestEnvelope, ResponseBody, bytes, response, encode_limited}
use caelix.Messages.Bounds.{limited-fits}
use caelix.Messages.Effects.{ok}
use caelix.Messages.Patterns.{valid_nats_subject}
use caelix.Redis.{RedisTransportOptions, command_stream}
use caelix.Redis.Broker.{Entry, Effect, xack_xdel, publish, Environment}
use caelix.Redis.Broker.Tallies.{Accepts}
use caelix.Redis.Broker.Commands.{is_unanswerable, process_command_entry}
use caelix.Redis.Broker.Commands.Admission.{IsAdmitted}
use caelix.Redis.Broker.Commands.Completion.{running, handled}
use caelix.Redis.Broker.Commands.Replies.{process_command_entry-replies}
use caelix.Redis.Client.{
  ClientEffect, open_pubsub, subscribe, add_request, ClientEnvironment, body_result, check_response,
  read_response, request_of, send_request, request_inner,
}

module _ (c : ClientEnvironment) (options : RedisTransportOptions) (subject : String) (p : Value)
    (h : List ClientEffect) where
  abbrev pub reply_channel : String
  reply_channel = "caelix:reply:" ++ c.uuid h

  -- The client's history when it encodes its request, and the request.
  abbrev pub subscribed : List ClientEffect
  subscribed = subscribe reply_channel ∷ open_pubsub ∷ h

  abbrev pub request : RequestEnvelope
  request = request_of c options (c.uuid h) reply_channel p subscribed

  -- The client's history while it waits.
  abbrev pub waiting : Bytes → List ClientEffect
  waiting b = add_request (command_stream c.sha256 subject) b ∷ subscribed

  read_back :
      (body : ResponseBody) (rb : Bytes) (g : List ClientEffect)
      → length rb ≤ options.max_response_bytes
      → c.as_response rb ≡ ok (response (c.uuid h) body)
      → read_response c options (c.uuid h) rb g ≡ body_result c options body g
  unfolding read_response check_response
  read_back body rb g fits dec =
      let small : ltb options.max_response_bytes (length rb) ≡ false = ground arith in
      rw (small, dec, str_eq_refl (c.uuid h)) refl

  pub request_inner-eq :
      (b m rb : Bytes) (body : ResponseBody)
      → ((g : List ClientEffect) (x : ClientEffect) → c.answer g x ≡ none)
      → valid_nats_subject subject ≡ true
      → c.request_bytes request ≡ bytes b
      → length b ≤ options.max_request_bytes
      → c.next_message (waiting b) ≡ some m
      → c.as_bytes m ≡ ok rb
      → length rb ≤ options.max_response_bytes
      → c.as_response rb ≡ ok (response (c.uuid h) body)
      → request_inner c options subject (ok p) h ≡ body_result c options body (waiting b)
  unfolding request_inner send_request encode_limited
  request_inner-eq b m rb body up valid enc fits arrived conv fits' dec =
      rw
        (
          valid,
          up h open_pubsub,
          up (open_pubsub ∷ h) (subscribe reply_channel),
          limited-fits options.max_request_bytes (c.request_bytes request) b enc fits,
          up subscribed (add_request (command_stream c.sha256 subject) b),
          arrived,
          conv,
        )
        (read_back body rb (waiting b) fits' dec)

-- A command and its reply, where the client's broker and the server's refuse nothing, the subject is
-- valid, and the encoded request has at most `max_request_bytes`; where the server decodes the request
-- that the client encoded, finds it answerable, and its deadline has not passed; and where the encoded
-- reply has at most `max_response_bytes`, is delivered to the waiting client and decodes to what the
-- server encoded. Then the entry that holds the request is completed after its handler ran and the reply
-- was published on the client's channel, and the call ends with the handler's result.
pub request_inner-roundtrip :
    (c : ClientEnvironment) (s : Environment) (options : RedisTransportOptions) (entry : Entry)
    (handler : MessageHandlerDef) (subject : String) (p : Value) (h : List ClientEffect)
    (g : List Effect) (b m rb : Bytes)
    → ((g' : List ClientEffect) (x : ClientEffect) → c.answer g' x ≡ none)
    → Accepts s
    → valid_nats_subject subject ≡ true
    → let req = request c options subject p h in
      c.request_bytes req ≡ bytes b
      → length b ≤ options.max_request_bytes
      → s.as_bytes b ≡ some b
      → s.as_request b ≡ some req
      → is_unanswerable req ≡ false
      → ((d : ℕ) → req.deadline_unix_millis ≡ some d → s.now g < d)
      → let n = s.ticks (running s options entry handler req 0 g) in
        let body = handled s options entry handler req n g in
        s.response_bytes (response (c.uuid h) body) ≡ bytes rb
        → length rb ≤ options.max_response_bytes
        → c.next_message (waiting c options subject p h b) ≡ some m
        → c.as_bytes m ≡ ok rb
        → c.as_response rb ≡ ok (response (c.uuid h) body)
        → (process_command_entry s options entry handler (("envelope", b) ∷ []) g ≡ (
          ok tt,
          xack_xdel entry
              ∷ publish (reply_channel c options subject p h) rb
              ∷ running s options entry handler req n g,
        ))
          × (request_inner c options subject (ok p) h
              ≡ body_result c options body (waiting c options subject p h b))
request_inner-roundtrip c s options entry handler subject p h g b m rb up up' valid enc fits stored
      decoded answerable in_time enc' fits' arrived conv dec =
    let req = request c options subject p h in
    let n = s.ticks (running s options entry handler req 0 g) in
    let adm : IsAdmitted s options g (("envelope", b) ∷ []) req = record {
      sound = record {
        envelope = b;
        found = stored;
        fits = fits;
        decoded = decoded;
        answerable = answerable;
      };
      versioned = refl;
      in_time = in_time;
    } in
    (
      process_command_entry-replies s options entry handler (("envelope", b) ∷ []) g req
          (reply_channel c options subject p h) rb up' adm refl enc' fits',
      request_inner-eq c options subject p h b m rb (handled s options entry handler req n g) up
          valid enc fits arrived conv fits' dec,
    )
