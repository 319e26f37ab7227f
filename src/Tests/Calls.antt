-- ===== src/Tests/Calls.antt =====
-- A call of the Redis client, and a server that answers it.
use caelix.Prelude.{ℕ, ◌<◌, ◌≡◌, refl, none, some, [], ◌∷◌, true, arith}
use caelix.Messages.{RequestEnvelope, returned, bytes, success, response, encode_limited, body_of}
use caelix.Messages.Effects.{ok}
use caelix.Messages.Patterns.{valid_nats_subject}
use caelix.Redis.Broker.{Environment, xack_xdel, publish}
use caelix.Redis.Broker.Commands.{process_command_entry}
use caelix.Redis.Broker.Commands.Completion.{running}
use caelix.Redis.Client.{
  ClientEnvironment, body_result, check_response, read_response, send_request, request_inner,
}
use caelix.Redis.Client.Matching.{IsExchange, request_inner-IsExchange}
use caelix.Redis.Client.Roundtrip.{request, waiting, reply_channel, request_inner-roundtrip}
use caelix.Tests.Streams.{an_entry, orders, settings}

abbrev caller : ClientEnvironment
caller = record {
  answer = λ h x. none;
  uuid = λ h. "u";
  now = λ h. 1000;
  elapsed = λ h. 3;
  sha256 = λ s. 255 ∷ [];
  request_bytes = λ r. bytes (4 ∷ []);
  event_bytes = λ e. bytes (5 ∷ []);
  next_message = λ h. some (6 ∷ []);
  as_bytes = λ b. ok b;
  as_response = λ b. ok (response "u" (success "42"));
  as_result = λ v. ok v;
}

abbrev the_request : RequestEnvelope
the_request = request caller settings "orders.place" "7" []

abbrev callee : Environment
callee = record {
  answer = λ h x. none;
  times_delivered = λ h. none;
  now = λ h. 2000;
  ticks = λ h. 1;
  invoke = λ h m c v. returned (some "42");
  as_bytes = λ b. some b;
  as_text = λ b. none;
  as_request = λ b. some the_request;
  as_event = λ b. none;
  response_bytes = λ r. bytes (6 ∷ []);
  dead_letter_bytes = λ d. bytes [];
}

call_returns :
    request_inner caller settings "orders.place" (ok "7") []
    ≡ (ok "42", waiting caller settings "orders.place" "7" [] (4 ∷ []))
unfolding request_inner send_request read_response encode_limited check_response valid_nats_subject
call_returns = refl

request_inner-IsExchange_example :
    (valid_nats_subject "orders.place" ≡ true)
    × IsExchange caller settings "orders.place" "42" []
        (waiting caller settings "orders.place" "7" [] (4 ∷ []))
request_inner-IsExchange_example =
    request_inner-IsExchange caller settings "orders.place" (ok "7") [] call_returns

valid_place : valid_nats_subject "orders.place" ≡ true
unfolding valid_nats_subject
valid_place = refl

in_time : (d : ℕ) → some 5997 ≡ some d → 2000 < d
in_time d e = let same : 5997 ≡ d = cc e in omega (arith, same)

request_inner-roundtrip_example :
    (process_command_entry callee settings an_entry orders (("envelope", 4 ∷ []) ∷ []) [] ≡ (
      ok tt,
      xack_xdel an_entry
          ∷ publish (reply_channel caller settings "orders.place" "7" []) (6 ∷ [])
          ∷ running callee settings an_entry orders the_request 1 [],
    ))
    × (request_inner caller settings "orders.place" (ok "7") []
        ≡ body_result caller settings
            (success "42")
            (waiting caller settings "orders.place" "7" [] (4 ∷ [])))
unfolding body_of
request_inner-roundtrip_example =
    request_inner-roundtrip caller callee settings an_entry orders "orders.place" "7" [] [] (4 ∷ [])
      (6 ∷ []) (6 ∷ []) (λ g x. refl) (λ g x. refl) valid_place refl (omega arith) refl refl refl
      in_time refl (omega arith) refl refl refl
