-- ===== src/Tests/Jets.antt =====
-- The NATS transport on concrete messages, and its runtime.
use caelix.Prelude.{
  ◌+◌, ◌≤◌, String, ◌≡◌, refl, ◌↔◌, ◌⊎◌, inl, none, some, [], ◌∷◌, true, false, arith,
}
use caelix.Messages.{RequestEnvelope, Reply, returned, raised, bytes, encode_response, transport}
use caelix.Messages.Bounds.{IsResponse}
use caelix.Messages.Effects.{ok, err}
use caelix.Messages.History.{tally}
use caelix.Messages.Patterns.{nats_pattern_matches, nats_pattern_covers, valid_nats_subject}
use caelix.Messages.Policy.{decide, acknowledgements, dead_letters}
use caelix.Messages.Pool.{joined}
use caelix.Nats.{
  NatsTransportOptions, nats_defaults, set_nats_option, Message, Info, NatsEnvironment,
  service_name, jetstream_stream, dead_letter_subject, queue_group,
}
use caelix.Nats.Commands.{dispatch_command}
use caelix.Nats.Events.{JetMessage, process_message}
use caelix.Nats.Requests.{
  is_invocation, IsInvocable, IsAddressed, dispatch_command-invokes_iff,
  dispatch_command-IsResponse,
}
use caelix.Nats.Settlement.{
  ends, asks_again, of_kind, is_dead_letter, redeliveries, IsDelivered, reply_of,
  process_message-decides,
}
use caelix.Nats.Runtime.{
  Surroundings, interrupted, start, start_tasks, start_handlers, start_events, start_event,
  start_command,
}
use caelix.Nats.Runtime.Shutdown.{run}
use caelix.Nats.Runtime.Start.{IsSafe, all_subjects, start-IsSafe}
use caelix.Nats.Runtime.Once.{
  IsOnce, IsDown, IsDeaf, start_call, cancel_call, shutdown_call, perform_all, new_runtime,
  perform_all-IsOnce, run-IsDown,
}
use caelix.Tests.Streams.{orders, shipped, a_request, an_event, outage}

abbrev jet_settings : NatsTransportOptions
jet_settings = set_nats_option (service_name "shop") (
    set_nats_option (jetstream_stream "EVENTS")
      (set_nats_option (dead_letter_subject "dead") (nats_defaults "nats://localhost")))

abbrev jets : Reply → NatsEnvironment
jets reply = record {
  answer = λ h x. none;
  now = λ h. 1000;
  ticks = λ h. 2;
  invoke = λ h m c v. reply;
  as_request = λ b. ok a_request;
  as_event = λ b. some an_event;
  response_bytes = λ r. bytes (1 ∷ 2 ∷ []);
  dead_letter_bytes = λ d. bytes (9 ∷ []);
}

abbrev a_message : Message
a_message = record {
  subject = "orders.place";
  reply = some "_INBOX.1";
  headers = some (("trace", "t" ∷ []) ∷ []);
  payload = 4 ∷ [];
}

dispatch_command-invokes_iff_example :
    let calls =
      tally is_invocation
        (dispatch_command (jets (returned none)) jet_settings orders a_message []).1 in
    (calls ≤ 1)
    × ((calls ≡ 1) ↔ (
        (request : RequestEnvelope) × IsInvocable
          (jets (returned none))
          jet_settings
          a_message
          []
          request))
dispatch_command-invokes_iff_example =
    dispatch_command-invokes_iff (jets (returned none)) jet_settings orders a_message []

dispatched :
    (dispatch_command (jets (returned none)) jet_settings orders a_message []).0 ≡ ok (1 ∷ 2 ∷ [])
unfolding dispatch_command encode_response
dispatched = refl

dispatch_command-IsResponse_example :
    (id : String) × IsAddressed (jets (returned none)) jet_settings a_message id
    × IsResponse
        (jets (returned none)).response_bytes
        id
        jet_settings.max_response_bytes
        (1 ∷ 2 ∷ [])
dispatch_command-IsResponse_example =
    dispatch_command-IsResponse (jets (returned none)) jet_settings orders a_message [] dispatched

abbrev some_info : Info
some_info = record { stream = "EVENTS"; consumer = "c"; delivered = 5 }

abbrev jet_message : JetMessage
jet_message = record {
  subject = "orders.shipped";
  headers = none;
  payload = 4 ∷ [];
  info = ok some_info;
}

jet_message-IsDelivered :
    IsDelivered (jets (raised outage)) jet_settings jet_message some_info an_event
jet_message-IsDelivered = record { informed = refl; fits = omega arith; decoded = refl }

process_message-decides_example :
    let r = process_message (jets (raised outage)) jet_settings jet_message shipped [] in
    let decision =
      decide 5 5
        (reply_of (jets (raised outage)) jet_settings jet_message shipped some_info an_event []) in
    (r.0 ≡ ok tt)
    × (tally (of_kind ends) r.1 ≡ acknowledgements decision + 0)
    × (tally (of_kind asks_again) r.1 ≡ redeliveries decision + 0)
    × (tally is_dead_letter r.1 ≡ dead_letters (some "dead") decision + 0)
    × (tally is_invocation r.1 ≡ 1)
process_message-decides_example =
    process_message-decides (jets (raised outage)) jet_settings jet_message shipped some_info
      an_event [] (λ h x. refl, λ x. (9 ∷ [], refl)) jet_message-IsDelivered

abbrev around : Surroundings
around = record {
  answer = λ h x. none;
  stream_subjects = λ h. "orders.>" ∷ "dead" ∷ [];
  consumer_config = λ h. record {
    filter_subject = "orders.*";
    explicit_ack = true;
    max_deliver = none;
    max_ack_pending = 64;
    ack_wait = 30000;
  };
  sha256 = λ s t. 255 ∷ [];
  ended_tasks = λ h. [];
  in_time = λ h. true;
  module_error = λ h. none;
  wake = λ h. interrupted;
}

starts : (start around jet_settings (orders ∷ shipped ∷ []) new_runtime []).0 ≡ ok tt
unfolding start start_tasks start_handlers start_events start_event start_command valid_nats_subject
    nats_pattern_matches nats_pattern_covers queue_group
starts = refl

start-IsSafe_example :
    IsSafe around jet_settings
      (orders ∷ shipped ∷ [])
      []
      (all_subjects around jet_settings (orders ∷ shipped ∷ []))
start-IsSafe_example =
    start-IsSafe around jet_settings (orders ∷ shipped ∷ []) new_runtime [] "orders.*" refl starts
      (inl refl)

perform_all-IsOnce_example : IsOnce around jet_settings (orders ∷ shipped ∷ []) (
    perform_all around jet_settings
      (orders ∷ shipped ∷ [])
      (start_call
        ∷ cancel_call
        ∷ shutdown_call (joined (err (transport "lost")) ∷ []) false
        ∷ start_call
        ∷ shutdown_call [] true
        ∷ [])
      (new_runtime, []))
perform_all-IsOnce_example = perform_all-IsOnce around jet_settings (orders ∷ shipped ∷ []) (
    start_call
    ∷ cancel_call
    ∷ shutdown_call (joined (err (transport "lost")) ∷ []) false
    ∷ start_call
    ∷ shutdown_call [] true
    ∷ [])

run-IsDown_example :
    let o = run around jet_settings (orders ∷ shipped ∷ []) new_runtime [] in
    IsDown around jet_settings (orders ∷ shipped ∷ []) o.1
    ⊎ IsDeaf around jet_settings
        (orders ∷ shipped ∷ [])
        (start around jet_settings (orders ∷ shipped ∷ []) new_runtime [])
        o
run-IsDown_example = run-IsDown around jet_settings (orders ∷ shipped ∷ [])
