-- ===== src/Tests/Streams.antt =====
-- The Redis transport on concrete commands, options and consumer iterations.
use caelix.Prelude.{
  ℕ, zero, suc, ◌≤◌, String, ◌≡◌, refl, ◌↔◌, ◌⊎◌, inl, inr, none, some, List, [], ◌∷◌, true, false,
  arith, In, length, take,
}
use caelix.Errors.{HttpException, text}
use caelix.Metadata.{MessageHandlerDef, command, event}
use caelix.Messages.{
  RequestEnvelope, EventEnvelope, Reply, returned, bytes, MicroserviceError, Bytes, encode_response,
}
use caelix.Messages.Effects.{Result, ok}
use caelix.Messages.Pool.{joined, going, empty_pool, AreWithin, wait_for_handler_tasks}
use caelix.Redis.{
  RedisTransportOptions, Setter, default_options, set_options, validate, service_name,
  max_event_deliveries, dead_letter_stream, event_retry_delay, command_stream, command_group,
  event_group,
}
use caelix.Redis.Runtime.{
  Host, run, xgroup_create, spawn_command_loop, spawn_event_loop, cancel, shutdown_module,
}
use caelix.Redis.Consumer.{
  Iteration, loop_step, refill, consumer_loop, AreFaithful, consumer_loop-AreWithin,
}
use caelix.Redis.Broker.{Entry, Effect, publish, Environment}
use caelix.Redis.Broker.Tallies.{tally, is_completion, is_invocation}
use caelix.Redis.Broker.Commands.{process_command_entry}
use caelix.Redis.Broker.Commands.Admission.{IsAdmitted}
use caelix.Redis.Broker.Commands.Completion.{process_command_entry-invokes_iff}
use caelix.Redis.Broker.Commands.Replies.{IsReply, process_command_entry-IsReply}

abbrev pub an_entry : Entry
an_entry = record { stream = "s"; group = "g"; consumer = "c"; id = "1-0" }

abbrev pub orders : MessageHandlerDef
orders = record { kind = command; pattern = "orders.place" }

abbrev pub shipped : MessageHandlerDef
shipped = record { kind = event; pattern = "orders.*" }

abbrev pub a_request : RequestEnvelope
a_request = record {
  version = 1;
  correlation_id = "u";
  deadline_unix_millis = some 6000;
  reply_channel = some "caelix:reply:u";
  headers = [];
  payload = "7";
}

abbrev pub an_event : EventEnvelope
an_event = record {
  version = 1;
  event_id = "e";
  headers = [];
  payload = "7";
  published_at_unix_millis = 900;
}

abbrev pub outage : HttpException
outage = record { status = 503; error = "Service Unavailable"; message = text "database down" }

-- A broker that takes everything, two heartbeats, and a handler with the given reply.
abbrev pub broker : Reply → Environment
broker reply = record {
  answer = λ h x. none;
  times_delivered = λ h. some 2;
  now = λ h. 1000;
  ticks = λ h. 2;
  invoke = λ h m c v. reply;
  as_bytes = λ b. some b;
  as_text = λ b. some "orders.shipped";
  as_request = λ b. some a_request;
  as_event = λ b. some an_event;
  response_bytes = λ r. bytes (1 ∷ 2 ∷ 3 ∷ []);
  dead_letter_bytes = λ d. bytes (9 ∷ []);
}

abbrev pub setters : List Setter
setters =
    service_name "shop"
    ∷ max_event_deliveries 0
    ∷ max_event_deliveries 3
    ∷ dead_letter_stream "dead"
    ∷ event_retry_delay 1
    ∷ []

abbrev pub settings : RedisTransportOptions
settings = set_options setters (default_options "redis://localhost")

abbrev pub stored : List (String × Bytes)
stored = ("subject", 5 ∷ []) ∷ ("envelope", 4 ∷ []) ∷ []

validates : validate settings (orders ∷ shipped ∷ []) ≡ ok "shop"
unfolding validate
validates = refl

-- A host that is interrupted, where each group exists already.
abbrev host : Host
host = record {
  sha256 = λ t. [];
  consumer = "c";
  answer = λ h x. some "BUSYGROUP Consumer Group name already exists";
  signal = λ h. none;
  join_next = λ h. none;
  in_time = λ h. true;
  module_error = λ h. none;
}

interrupted_run : run host settings (orders ∷ shipped ∷ []) [] ≡ (
  ok tt,
  shutdown_module
      ∷ cancel
      ∷ spawn_event_loop "shop" "c"
      ∷ xgroup_create "caelix:events" "caelix-events-"
      ∷ spawn_command_loop orders "shop" "c"
      ∷ xgroup_create "caelix:commands:" "caelix-command--"
      ∷ [],
)
unfolding run validate command_stream command_group event_group
interrupted_run = refl

abbrev served : Result MicroserviceError (Unit {0}) × List Effect
served = process_command_entry (broker (returned none)) settings an_entry orders stored []

completes : (tally is_completion served.1 ≡ 1) × (tally is_invocation served.1 ≡ 1)
unfolding process_command_entry encode_response
completes = (refl, refl)

process_command_entry-invokes_iff_example :
    (tally is_invocation served.1 ≤ 1)
    × ((tally is_invocation served.1 ≡ 1) ↔ (
        (request : RequestEnvelope) × IsAdmitted
          (broker (returned none))
          settings
          []
          stored
          request))
process_command_entry-invokes_iff_example =
    process_command_entry-invokes_iff (broker (returned none)) settings an_entry orders stored []

replied_there : In (publish "caelix:reply:u" (1 ∷ 2 ∷ 3 ∷ [])) served.1
unfolding process_command_entry encode_response
replied_there = inr (inl refl)

process_command_entry-IsReply_example :
    In (publish "caelix:reply:u" (1 ∷ 2 ∷ 3 ∷ [])) []
    ⊎ IsReply (broker (returned none)) settings stored "caelix:reply:u" (1 ∷ 2 ∷ 3 ∷ [])
process_command_entry-IsReply_example =
    process_command_entry-IsReply (broker (returned none)) settings an_entry orders stored []
      "caelix:reply:u" (1 ∷ 2 ∷ 3 ∷ []) replied_there

-- Two entries at first; then one of the tasks ends, and one more entry is read.
abbrev first_iteration : Iteration
first_iteration = record {
  cancelled = false;
  finished = [];
  next = none;
  reclaim = λ n. ok [];
  read_group = λ n. ok (take n ("1-0" ∷ "2-0" ∷ []));
}

abbrev second_iteration : Iteration
second_iteration = record {
  cancelled = false;
  finished = joined (ok tt) ∷ [];
  next = none;
  reclaim = λ n. ok (take n ("1-0" ∷ []));
  read_group = λ n. ok [];
}

abbrev some_iterations : List Iteration
some_iterations = first_iteration ∷ second_iteration ∷ []

take_counts : (n : ℕ) (xs : List String) → length (take n xs) ≤ n
take_counts zero xs = omega arith
take_counts (suc n) [] = omega arith
take_counts (suc n) (x ∷ xs) = omega (arith, take_counts n xs)

consumes :
    consumer_loop 2 [] some_iterations (going empty_pool)
    ≡ going (record { in_flight = 2; spawned = 3; joined_tasks = 1 })
unfolding consumer_loop refill wait_for_handler_tasks
consumes = refl

are_faithful : AreFaithful 2 [] some_iterations (going empty_pool)
unfolding loop_step refill wait_for_handler_tasks
are_faithful = (
  (λ n. omega arith, λ n. take_counts n ("1-0" ∷ "2-0" ∷ [])),
  (omega arith, ((λ n. take_counts n ("1-0" ∷ []), λ n. omega arith), (omega arith, tt))),
)

consumer_loop-AreWithin_example :
    AreWithin 2 (consumer_loop 2 [] some_iterations (going empty_pool))
consumer_loop-AreWithin_example =
    consumer_loop-AreWithin 2 [] some_iterations (omega arith) are_faithful
