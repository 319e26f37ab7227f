-- ===== src/Redis/Options.antt =====
-- crates/caelix-microservices/src/redis_transport.rs: what the builder and the validation of the
-- options guarantee.
use caelix.Prelude.{
  ℕ, ◌≤◌, ◌<◌, String, ◌≡◌, ◌≢◌, refl, sym, subst, ap, ◌∙◌, ◌↔◌, inl, inr, false, Option, none,
  some, List, [], ◌∷◌, All, Bool-cases, arith, str_eq_iff,
}
use caelix.Maps.{str_eq_of_ne}
use caelix.Metadata.{MessageHandlerDef}
use caelix.Messages.{MicroserviceError, minimum_response_envelope_bytes, is_blank, named}
use caelix.Messages.Effects.{Result, ok, err}
use caelix.Redis.{
  RedisTransportOptions, default_options, Setter, set_option, set_options, validate_client,
  validate, blank_some, some_is, any_blank, check_patterns, after_client, service_name,
  event_stream, dead_letter_stream, rpc_timeout, max_request_bytes, max_response_bytes,
  max_event_bytes, max_handler_concurrency, shutdown_timeout, max_event_deliveries,
  event_retry_delay, command_recovery_delay, approximate_max_event_entries,
}

pub record IsBounded (o : RedisTransportOptions) : Type 0 where
  pub requests : 1 ≤ o.max_request_bytes
  pub responses : minimum_response_envelope_bytes ≤ o.max_response_bytes
  pub events : 1 ≤ o.max_event_bytes
  pub concurrency : 1 ≤ o.max_handler_concurrency
  pub deliveries : 1 ≤ o.max_event_deliveries
  pub retries : 10 ≤ o.event_retry_delay
  pub recovery : 10 ≤ o.command_recovery_delay
  pub entries : (n : ℕ) → o.approximate_max_event_entries ≡ some n → 1 ≤ n

set_option-IsBounded :
    (s : Setter) (o : RedisTransportOptions) → IsBounded o → IsBounded (set_option s o)
set_option-IsBounded (service_name v) o h = ground arith
set_option-IsBounded (event_stream v) o h = ground arith
set_option-IsBounded (dead_letter_stream v) o h = ground arith
set_option-IsBounded (rpc_timeout v) o h = ground arith
set_option-IsBounded (max_request_bytes v) o h = ground arith
set_option-IsBounded (max_response_bytes v) o h = ground arith
set_option-IsBounded (max_event_bytes v) o h = ground arith
set_option-IsBounded (max_handler_concurrency v) o h = ground arith
set_option-IsBounded (shutdown_timeout v) o h = ground arith
set_option-IsBounded (max_event_deliveries v) o h = ground arith
set_option-IsBounded (event_retry_delay v) o h = ground arith
set_option-IsBounded (command_recovery_delay v) o h = ground arith
set_option-IsBounded (approximate_max_event_entries v) o h = ground arith

set_options-IsBounded_from :
    (ss : List Setter) (o : RedisTransportOptions) → IsBounded o → IsBounded (set_options ss o)
set_options-IsBounded_from [] o h = h
set_options-IsBounded_from (s ∷ ss) o h =
    set_options-IsBounded_from ss (set_option s o) (set_option-IsBounded s o h)

-- Options that are built by any calls of the setters are within the bounds: no limit is zero, a
-- response may have at least 256 bytes, and a delay is at least ten milliseconds.
pub set_options-IsBounded :
    (server : String) (ss : List Setter) → IsBounded (set_options ss (default_options server))
set_options-IsBounded server ss =
    set_options-IsBounded_from ss (default_options server) (ground arith)

-- The options that the transport starts with.
pub record IsUsable (o : RedisTransportOptions) (handlers : List MessageHandlerDef)
    (service : String) : Type 0 where
  pub server : is_blank o.server ≡ false
  pub stream : is_blank o.event_stream ≡ false
  pub dead_letters :
      (s : String) → o.dead_letter_stream ≡ some s → (is_blank s ≡ false) × (s ≢ o.event_stream)
  pub rpc : 0 < o.rpc_timeout
  pub shutdown : 0 < o.shutdown_timeout
  pub group : o.service_name ≡ some service
  pub not_blank : is_blank service ≡ false
  pub patterns : All (λ h. is_blank h.pattern ≡ false) handlers

abbrev Checks : RedisTransportOptions → Type 0
Checks o =
    (is_blank o.server ≡ false)
    × (is_blank o.event_stream ≡ false)
    × (blank_some o.dead_letter_stream ≡ false)
    × (some_is o.dead_letter_stream o.event_stream ≡ false)
    × (0 < o.rpc_timeout)
    × (0 < o.shutdown_timeout)

validate_client-Checks : (o : RedisTransportOptions) → validate_client o ≡ ok tt → Checks o
unfolding validate_client
validate_client-Checks o e = ground arith

Checks-validate_client : (o : RedisTransportOptions) → Checks o → validate_client o ≡ ok tt
unfolding validate_client
Checks-validate_client o c = ground arith

dead_letters-apart :
    (place : Option String) (stream : String)
    → blank_some place ≡ false
    → some_is place stream ≡ false
    → (s : String) → place ≡ some s
    → (is_blank s ≡ false) × (s ≢ stream)
dead_letters-apart none stream b e s f = cc f
dead_letters-apart (some t) stream b e s f =
    let same : t ≡ s = cc f in
    (subst (λ x. is_blank x ≡ false) same b, λ g. cc (e, (str_eq_iff t stream).1 (same ∙ g)))

apart-dead_letters :
    (place : Option String) (stream : String)
    → ((s : String) → place ≡ some s → (is_blank s ≡ false) × (s ≢ stream))
    → (blank_some place ≡ false) × (some_is place stream ≡ false)
apart-dead_letters none stream h = (refl, refl)
apart-dead_letters (some t) stream h = ((h t refl).0, str_eq_of_ne t stream (h t refl).1)

any_blank-All :
    (hs : List MessageHandlerDef)
    → (any_blank hs ≡ false) ↔ All (λ h. is_blank h.pattern ≡ false) hs
any_blank-All [] = (λ e. tt, λ a. refl)
any_blank-All (h ∷ hs) =
    let (to, from) = any_blank-All hs in
    (
      λ e. elim (Bool-cases (is_blank h.pattern)) [
        | inl blank ↦ cc (rw blank at e)
        | inr full ↦ (full, to (rw full at e))
      ],
      λ a. rw a.0 (from a.1),
    )

named-eq :
    (name : Option String) (s : String)
    → (named name ≡ some s) ↔ ((name ≡ some s) × (is_blank s ≡ false))
named-eq none s = (λ e. cc e, λ a. cc a.0)
named-eq (some t) s = (
  λ e. elim (Bool-cases (is_blank t)) [
    | inl blank ↦ cc (rw blank at e)
    | inr full ↦
        let same : some t ≡ some s = rw full at e in
        let same' : t ≡ s = cc same in (same, subst (λ x. is_blank x ≡ false) same' full)
  ],
  λ a.
      let same : t ≡ s = cc a.0 in
      let full : is_blank t ≡ false = subst (λ x. is_blank x ≡ false) (sym same) a.1 in rw full a.0,
)

validate-inv :
    (o : RedisTransportOptions) (handlers : List MessageHandlerDef) (service : String)
    → validate o handlers ≡ ok service
    → (validate_client o ≡ ok tt)
      × (named o.service_name ≡ some service)
      × (any_blank handlers ≡ false)
unfolding validate
validate-inv o handlers service e = go (validate_client o) (named o.service_name) refl refl e
  where
    go :
        (r : Result MicroserviceError (Unit {0})) (n : Option String)
        → validate_client o ≡ r
        → named o.service_name ≡ n
        → after_client r (check_patterns n handlers) ≡ ok service
        → (validate_client o ≡ ok tt)
          × (named o.service_name ≡ some service)
          × (any_blank handlers ≡ false)
    go (err x) n f g e = cc e
    go (ok u) none f g e = cc e
    go (ok u) (some s) f g e = elim (Bool-cases (any_blank handlers)) [
      | inl blank ↦ cc (rw blank at e)
      | inr full ↦
          let same : ok s ≡ ok service = rw full at e in
          let same' : s ≡ service = cc same in (f, g ∙ ap some same', full)
    ]

-- Validation succeeds exactly for options that the transport can start with, and then returns the
-- service name: the server, both streams, the service and every pattern are not blank, dead letters
-- do not go to the event stream itself, and neither timeout is zero.
pub validate_iff :
    (o : RedisTransportOptions) (handlers : List MessageHandlerDef) (service : String)
    → (validate o handlers ≡ ok service) ↔ IsUsable o handlers service
unfolding validate
validate_iff o handlers service = (forth, back)
  where
    forth : validate o handlers ≡ ok service → IsUsable o handlers service
    forth e =
        let (client, name, patterns) = validate-inv o handlers service e in
        let (a, b, c, d, f, g) = validate_client-Checks o client in
        let (group, full) = (named-eq o.service_name service).0 name in
        record {
          server = a;
          stream = b;
          dead_letters = dead_letters-apart o.dead_letter_stream o.event_stream c d;
          rpc = f;
          shutdown = g;
          group = group;
          not_blank = full;
          patterns = (any_blank-All handlers).0 patterns;
        }

    back : IsUsable o handlers service → validate o handlers ≡ ok service
    back u =
        let (c, d) = apart-dead_letters o.dead_letter_stream o.event_stream u.dead_letters in
        let client = Checks-validate_client o (u.server, u.stream, c, d, u.rpc, u.shutdown) in
        let name = (named-eq o.service_name service).1 (u.group, u.not_blank) in
        let patterns = (any_blank-All handlers).1 u.patterns in rw (client, name, patterns) refl
