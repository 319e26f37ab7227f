-- ===== src/Redis/Broker/Events/Settlement.antt =====
-- crates/caelix-microservices/src/redis_transport.rs: what becomes of an event entry.
use caelix.Prelude.{
  ℕ, suc, ◌+◌, String, ◌≡◌, refl, ap, ◌∙◌, inl, inr, Bool, false, leb, Option, none, some, List,
  ◌∷◌, Bool-cases, arith,
}
use caelix.Errors.{HttpException}
use caelix.Metadata.{MessageHandlerDef}
use caelix.Messages.{
  Bytes, EventEnvelope, Reply, returned, raised, MicroserviceError, bytes, is_client_error,
}
use caelix.Messages.Effects.{Result, ok}
use caelix.Messages.Policy.{Decision, finish, bury, retry, decide, acknowledgements, dead_letters}
use caelix.Redis.{RedisTransportOptions}
use caelix.Redis.Broker.{DeadLetterEnvelope, Entry, Effect, ack, xack, xclaim, xadd, Environment}
use caelix.Redis.Broker.Tallies.{
  is_invocation, is_completion, is_dead_letter, tally, tally-repeated, Accepts,
}
use caelix.Redis.Broker.Events.{settle_event, bury_event, process_event_entry, dead_letter}
use caelix.Redis.Broker.Events.Treatment.{
  Delivery, IsDeliverable, attempt_of, running, beats, reply_of, deliverable-eq,
}

-- Every dead letter can be encoded.
abbrev pub Encodes : Environment → Type 0
Encodes env = (x : DeadLetterEnvelope) → (b : Bytes) × (env.dead_letter_bytes x ≡ bytes b)

module _ (env : Environment) (options : RedisTransportOptions) (entry : Entry) where
  -- The result of a settlement from `h`, and what it adds.
  abbrev Settles :
      Option String
      → Decision
      → List Effect
      → Result MicroserviceError (Unit {0}) × List Effect
      → Type 0
  Settles place d h r =
      (r.0 ≡ ok tt)
      × (tally is_completion r.1 ≡ acknowledgements d + tally is_completion h)
      × (tally is_dead_letter r.1 ≡ dead_letters place d + tally is_dead_letter h)
      × (tally is_invocation r.1 ≡ tally is_invocation h)

  ack-Settles :
      (place : Option String) (h : List Effect)
      → Accepts env
      → Settles place finish h (ack env entry h)
  ack-Settles none h up = rw (up h (xack entry)) (refl, omega arith, omega arith, refl)
  ack-Settles (some s) h up = rw (up h (xack entry)) (refl, omega arith, omega arith, refl)

  bury_event-Settles :
      (place : Option String) (subject : String) (ev : EventEnvelope) (attempt : ℕ)
      (e : HttpException) (h : List Effect)
      → Accepts env
      → Encodes env
      → Settles place bury h (bury_event env options entry place subject ev attempt e h)
  unfolding bury_event
  bury_event-Settles none subject ev attempt e h up enc =
      rw (up h (xack entry)) (refl, omega arith, omega arith, refl)
  bury_event-Settles (some s) subject ev attempt e h up enc =
      let (b, f) = enc (dead_letter env options entry subject ev attempt e (env.now h)) in
      rw (f, up h (xadd s b), up (xadd s b ∷ h) (xack entry)) (refl, omega arith, omega arith, refl)

  retry-Settles : (place : Option String) (h : List Effect) → Settles place retry h (ok tt, h)
  retry-Settles none h = (refl, omega arith, omega arith, refl)
  retry-Settles (some s) h = (refl, omega arith, omega arith, refl)

  settle_event-Settles :
      (subject : String) (ev : EventEnvelope) (attempt : ℕ) (reply : Reply) (h : List Effect)
      → Accepts env
      → Encodes env
      → Settles options.dead_letter_stream
          (decide options.max_event_deliveries attempt reply)
          h
          (settle_event env options entry subject ev attempt reply h)
  unfolding settle_event decide
  settle_event-Settles subject ev attempt (returned v) h up enc =
      ack-Settles options.dead_letter_stream h up
  settle_event-Settles subject ev attempt (raised e) h up enc =
      elim (Bool-cases (is_client_error e.status)) [
        | inl client ↦ rw client (ack-Settles options.dead_letter_stream h up)
        | inr server ↦ elim (Bool-cases (leb options.max_event_deliveries attempt)) [
          | inl last ↦
              rw (server, last)
                (bury_event-Settles options.dead_letter_stream subject ev attempt e h up enc)
          | inr early ↦ rw (server, early) (retry-Settles options.dead_letter_stream h)
        ]
      ]

module _ (env : Environment) (options : RedisTransportOptions) (entry : Entry)
    (handlers : List MessageHandlerDef) where
  abbrev pub decision_of : Delivery → List Effect → Decision
  decision_of d h =
      decide options.max_event_deliveries (attempt_of env options entry handlers h)
        (reply_of env options entry handlers d h)

  pub tally-running :
      (p : Effect → Bool) (d : Delivery) (n : ℕ) (h : List Effect)
      → p (xclaim entry) ≡ false
      → tally p (running env options entry handlers d n h)
        ≡ tally p (running env options entry handlers d 0 h)
  tally-running p d n h e = tally-repeated p n (xclaim entry) _ e

-- With a broker that refuses nothing, processing a deliverable event succeeds, calls the handler once,
-- and then acknowledges the event and sends dead letters as the shared policy decides from the
-- attempt that the broker reports and from the handler's reply.
pub process_event_entry-decides :
    (env : Environment) (options : RedisTransportOptions) (entry : Entry)
    (handlers : List MessageHandlerDef) (fields : List (String × Bytes)) (d : Delivery)
    (h : List Effect)
    → IsDeliverable env options entry handlers fields d
    → Accepts env
    → Encodes env
    → let r = process_event_entry env options entry handlers fields h in
      let decision = decision_of env options entry handlers d h in
      (r.0 ≡ ok tt)
      × (tally is_completion r.1 ≡ acknowledgements decision + tally is_completion h)
      × (tally is_dead_letter r.1
          ≡ dead_letters options.dead_letter_stream decision + tally is_dead_letter h)
      × (tally is_invocation r.1 ≡ suc (tally is_invocation h))
process_event_entry-decides env options entry handlers fields d h g up enc =
    let decision = decision_of env options entry handlers d h in
    let n = beats env options entry handlers d h in
    let (a, b, c, f) =
      settle_event-Settles env options entry d.subject d.event
        (attempt_of env options entry handlers h) (reply_of env options entry handlers d h)
        (running env options entry handlers d n h) up enc in
    let same : (p : Effect → Bool)
        → p (xclaim entry) ≡ false
        → tally p (running env options entry handlers d n h)
          ≡ tally p (running env options entry handlers d 0 h) =
      λ p e. tally-running env options entry handlers p d n h e in
    rw (deliverable-eq env options entry handlers fields d h g up) (
      a,
      b ∙ ap (λ k. acknowledgements decision + k) (same is_completion refl),
      c ∙ ap (λ k. dead_letters options.dead_letter_stream decision + k) (same is_dead_letter refl),
      f ∙ same is_invocation refl,
    )
