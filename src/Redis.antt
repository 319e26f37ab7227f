-- ===== src/Redis.antt =====
-- crates/caelix-microservices/src/redis_transport.rs: the options of the Redis transport, their
-- validation, and the names of streams and groups.
-- Durations are in milliseconds. SHA-256 is an argument.
pub mod Options
pub mod Broker
pub mod Consumer
pub mod Client
pub mod Runtime
use caelix.Prelude.{
  ℕ, ◌/◌, ◌%◌, ◌*◌, max, String, Bool, true, false, not, ◌&&◌, ◌||◌, Option, none, some, List, [],
  ◌∷◌, ltb, ◌==◌, if◌then◌else◌, str_eq, get_elem?, take,
}
use Prim.Native.String.{◌++◌}
use caelix.Metadata.{MessageHandlerDef}
use caelix.Messages.{
  Bytes, MicroserviceError, configuration, minimum_response_envelope_bytes, is_blank, named,
}
use caelix.Messages.Effects.{Result, ok, err}

pub record RedisTransportOptions : Type 0 where
  pub server : String
  pub service_name : Option String
  pub event_stream : String
  pub dead_letter_stream : Option String
  pub rpc_timeout : ℕ
  pub max_request_bytes : ℕ
  pub max_response_bytes : ℕ
  pub max_event_bytes : ℕ
  pub max_handler_concurrency : ℕ
  pub shutdown_timeout : ℕ
  pub max_event_deliveries : ℕ
  pub event_retry_delay : ℕ
  pub command_recovery_delay : ℕ
  pub approximate_max_event_entries : Option ℕ

-- `new`
abbrev pub default_options : String → RedisTransportOptions
default_options server = record {
  server = server;
  service_name = none;
  event_stream = "caelix:events";
  dead_letter_stream = none;
  rpc_timeout = 5000;
  max_request_bytes = 1024 * 1024;
  max_response_bytes = 1024 * 1024;
  max_event_bytes = 1024 * 1024;
  max_handler_concurrency = 64;
  shutdown_timeout = 10000;
  max_event_deliveries = 5;
  event_retry_delay = 1000;
  command_recovery_delay = 30000;
  approximate_max_event_entries = none;
}

-- The setters, one for each method of the builder.
pub data Setter : Type 0 where
  service_name event_stream dead_letter_stream : String → Setter
  rpc_timeout max_request_bytes max_response_bytes max_event_bytes : ℕ → Setter
  max_handler_concurrency shutdown_timeout max_event_deliveries : ℕ → Setter
  event_retry_delay command_recovery_delay approximate_max_event_entries : ℕ → Setter

abbrev pub set_option : Setter → RedisTransportOptions → RedisTransportOptions
set_option (service_name v) o = record o { service_name = some v }
set_option (event_stream v) o = record o { event_stream = v }
set_option (dead_letter_stream v) o = record o { dead_letter_stream = some v }
set_option (rpc_timeout v) o = record o { rpc_timeout = v }
set_option (max_request_bytes v) o = record o { max_request_bytes = max v 1 }
set_option (max_response_bytes v) o = record o {
  max_response_bytes = max v minimum_response_envelope_bytes;
}
set_option (max_event_bytes v) o = record o { max_event_bytes = max v 1 }
set_option (max_handler_concurrency v) o = record o { max_handler_concurrency = max v 1 }
set_option (shutdown_timeout v) o = record o { shutdown_timeout = v }
set_option (max_event_deliveries v) o = record o { max_event_deliveries = max v 1 }
set_option (event_retry_delay v) o = record o { event_retry_delay = max v 10 }
set_option (command_recovery_delay v) o = record o { command_recovery_delay = max v 10 }
set_option (approximate_max_event_entries v) o = record o {
  approximate_max_event_entries = some (max v 1);
}

abbrev pub set_options : List Setter → RedisTransportOptions → RedisTransportOptions
set_options [] o = o
set_options (s ∷ ss) o = set_options ss (set_option s o)

abbrev pub blank_some : Option String → Bool
blank_some none = false
blank_some (some s) = is_blank s

abbrev pub some_is : Option String → String → Bool
some_is none t = false
some_is (some s) t = str_eq s t

unfoldable pub validate_client : RedisTransportOptions → Result MicroserviceError (Unit {0})
validate_client o =
    if is_blank o.server
    then err (configuration "Redis server URL must not be empty")
    else if is_blank o.event_stream
    then err (configuration "event_stream must not be empty")
    else if blank_some o.dead_letter_stream
    then err (configuration "dead-letter Stream must not be empty")
    else if some_is o.dead_letter_stream o.event_stream
    then err (configuration "dead-letter Stream must differ from the event Stream")
    else if o.rpc_timeout == 0
    then err (configuration "rpc_timeout must be greater than zero")
    else if o.shutdown_timeout == 0
    then err (configuration "shutdown_timeout must be greater than zero")
    else ok tt

abbrev pub any_blank : List MessageHandlerDef → Bool
any_blank [] = false
any_blank (h ∷ hs) = is_blank h.pattern || any_blank hs

abbrev pub check_patterns : Option String → List MessageHandlerDef → Result MicroserviceError String
check_patterns none handlers = err (configuration "service_name is required for Redis consumers")
check_patterns (some service) handlers =
    if any_blank handlers
    then err (configuration "message patterns must not be empty")
    else ok service

abbrev pub after_client :
    Result MicroserviceError (Unit {0})
    → Result MicroserviceError String
    → Result MicroserviceError String
after_client (ok u) r = r
after_client (err e) r = err e

unfoldable pub validate :
    RedisTransportOptions → List MessageHandlerDef → Result MicroserviceError String
unfolding validate_client
validate o handlers =
    after_client (validate_client o) (check_patterns (named o.service_name) handlers)

abbrev hex_digits : List String
hex_digits =
    "0" ∷ "1" ∷ "2" ∷ "3" ∷ "4" ∷ "5" ∷ "6" ∷ "7" ∷ "8" ∷ "9" ∷ "a" ∷ "b" ∷ "c" ∷ "d" ∷ "e" ∷ "f"
    ∷ []

abbrev or_empty : Option String → String
or_empty none = ""
or_empty (some d) = d

abbrev hex_digit : ℕ → String
hex_digit n = or_empty (get_elem? hex_digits n)

-- `{byte:02x}` of each byte
abbrev pub hex : Bytes → String
hex [] = ""
hex (b ∷ bs) = hex_digit (b / 16) ++ (hex_digit (b % 16) ++ hex bs)

unfoldable pub stable_name : (String → Bytes) → String → String
stable_name sha256 value = hex (take 12 (sha256 value))

unfoldable pub command_stream : (String → Bytes) → String → String
unfolding stable_name
command_stream sha256 subject = "caelix:commands:" ++ stable_name sha256 subject

unfoldable pub command_group : (String → Bytes) → String → String → String
unfolding stable_name
command_group sha256 service subject =
    "caelix-command-" ++ (stable_name sha256 service ++ ("-" ++ stable_name sha256 subject))

unfoldable pub event_group : (String → Bytes) → String → String
unfolding stable_name
event_group sha256 service = "caelix-events-" ++ stable_name sha256 service
