-- ===== src/Nats/Settlement.antt =====
-- crates/caelix-microservices/src/lib.rs: what becomes of an event that NATS delivers.
use caelix.Prelude.{
  ℕ, zero, suc, ◌+◌, ◌≤◌, String, ◌≡◌, refl, ap, ◌∙◌, inl, inr, Bool, true, false, ltb, leb, Option,
  none, some, List, ◌∷◌, length, Bool-cases, arith,
}
use caelix.Errors.{HttpException}
use caelix.Metadata.{MessageHandlerDef}
use caelix.Messages.{
  Bytes, EventEnvelope, Reply, returned, raised, MicroserviceError, bytes, is_client_error,
}
use caelix.Messages.Effects.{Result, ok, times}
use caelix.Messages.History.{tally, repeated, tally-repeated}
use caelix.Messages.Policy.{Decision, finish, bury, retry, decide, acknowledgements, dead_letters}
use caelix.Redis.Broker.Events.{accept_event}
use caelix.Nats.{
  NatsTransportOptions, Info, NatsEffect, publish, publish_event, ack_with, invocation, AckKind,
  ack, term, progress, nak, NatsDeadLetter, NatsEnvironment,
}
use caelix.Nats.Events.{
  JetMessage, ask, event_context, nats_dead_letter, bury_message, settle_message, process_accepted,
  process_with_info, process_message,
}
use caelix.Nats.Requests.{is_invocation}

-- The broker does not deliver the event again.
abbrev pub ends : AckKind → Bool
ends ack = true
ends term = true
ends progress = false
ends (nak delay) = false

-- The broker is asked to deliver the event again.
abbrev pub asks_again : AckKind → Bool
asks_again ack = false
asks_again term = false
asks_again progress = false
asks_again (nak delay) = true

abbrev pub of_kind : (AckKind → Bool) → NatsEffect → Bool
of_kind p (publish s b) = false
of_kind p (publish_event s b) = false
of_kind p (ack_with k) = p k
of_kind p (invocation m c v) = false

abbrev pub is_dead_letter : NatsEffect → Bool
is_dead_letter (publish s b) = false
is_dead_letter (publish_event s b) = true
is_dead_letter (ack_with k) = false
is_dead_letter (invocation m c v) = false

-- A broker that refuses nothing, and a serializer that takes every dead letter.
abbrev pub Accepts : NatsEnvironment → Type 0
Accepts env =
    ((h : List NatsEffect) (x : NatsEffect) → env.answer h x ≡ none)
    × ((x : NatsDeadLetter) → (b : Bytes) × (env.dead_letter_bytes x ≡ bytes b))

-- How often the broker is asked to deliver an event again.
abbrev pub redeliveries : Decision → ℕ
redeliveries finish = 0
redeliveries bury = 0
redeliveries retry = 1

module _ (env : NatsEnvironment) (options : NatsTransportOptions) (message : JetMessage) where
  -- An event that its handler is called for.
  pub record IsDelivered (info : Info) (ev : EventEnvelope) : Type 0 where
    pub informed : message.info ≡ ok info
    pub fits : length message.payload ≤ options.max_event_bytes
    pub decoded : accept_event (env.as_event message.payload) ≡ some ev

  -- What a settlement from `h` adds.
  abbrev Settles :
      Option String
      → Decision
      → List NatsEffect
      → Result MicroserviceError (Unit {0}) × List NatsEffect
      → Type 0
  Settles place d h r =
      (r.0 ≡ ok tt)
      × (tally (of_kind ends) r.1 ≡ acknowledgements d + tally (of_kind ends) h)
      × (tally (of_kind asks_again) r.1 ≡ redeliveries d + tally (of_kind asks_again) h)
      × (tally is_dead_letter r.1 ≡ dead_letters place d + tally is_dead_letter h)
      × (tally is_invocation r.1 ≡ tally is_invocation h)

  module _ (up : Accepts env) where
    finish-Settles :
        (place : Option String) (k : AckKind) (h : List NatsEffect)
        → ends k ≡ true
        → asks_again k ≡ false
        → Settles place finish h (ask env options message (ack_with k) h)
    finish-Settles none k h e f =
        rw (up.0 h (ack_with k), e, f) (refl, omega arith, omega arith, omega arith, refl)
    finish-Settles (some s) k h e f =
        rw (up.0 h (ack_with k), e, f) (refl, omega arith, omega arith, omega arith, refl)

    retry-Settles :
        (place : Option String) (delay : ℕ) (h : List NatsEffect)
        → Settles place retry h (ask env options message (ack_with (nak delay)) h)
    retry-Settles none delay h =
        rw (up.0 h (ack_with (nak delay))) (refl, omega arith, omega arith, omega arith, refl)
    retry-Settles (some s) delay h =
        rw (up.0 h (ack_with (nak delay))) (refl, omega arith, omega arith, omega arith, refl)

    bury_message-Settles :
        (place : Option String) (info : Info) (ev : EventEnvelope) (e : HttpException)
        (h : List NatsEffect)
        → Settles place bury h (bury_message env options message place info ev e h)
    unfolding bury_message
    bury_message-Settles none info ev e h =
        rw (up.0 h (ack_with term)) (refl, omega arith, omega arith, omega arith, refl)
    bury_message-Settles (some s) info ev e h =
        let (b, f) = up.1 (nats_dead_letter env options message info ev e) in
        rw (f, up.0 h (publish_event s b), up.0 (publish_event s b ∷ h) (ack_with term))
          (refl, omega arith, omega arith, omega arith, refl)

    settle_message-Settles :
        (info : Info) (ev : EventEnvelope) (reply : Reply) (h : List NatsEffect)
        → Settles options.dead_letter_subject
            (decide options.max_event_deliveries info.delivered reply)
            h
            (settle_message env options message info ev reply h)
    unfolding settle_message decide
    settle_message-Settles info ev (returned v) h =
        finish-Settles options.dead_letter_subject ack h refl refl
    settle_message-Settles info ev (raised e) h = elim (Bool-cases (is_client_error e.status)) [
      | inl client ↦ rw client (finish-Settles options.dead_letter_subject term h refl refl)
      | inr server ↦ elim (Bool-cases (leb options.max_event_deliveries info.delivered)) [
        | inl last ↦
            rw (server, last) (bury_message-Settles options.dead_letter_subject info ev e h)
        | inr early ↦
            rw (server, early)
              (retry-Settles options.dead_letter_subject options.event_retry_delay h)
      ]
    ]

    times-accepted :
        (n : ℕ) (h : List NatsEffect)
        → times n (ask env options message (ack_with progress)) h
          ≡ (ok tt, repeated n (ack_with progress) h)
    times-accepted zero h = refl
    times-accepted (suc n) h =
        rw (up.0 h (ack_with progress)) (times-accepted n (ack_with progress ∷ h))

  module _ (handler : MessageHandlerDef) (info : Info) (ev : EventEnvelope) where
    -- The history once the handler is called from `h` and n reports of progress were sent.
    abbrev pub running : ℕ → List NatsEffect → List NatsEffect
    running n h =
        repeated n (ack_with progress)
          (invocation handler (event_context env options message info ev) ev.payload ∷ h)

    abbrev pub reply_of : List NatsEffect → Reply
    reply_of h =
        env.invoke (running (env.ticks (running 0 h)) h) handler
          (event_context env options message info ev) ev.payload

    delivered-eq :
        (h : List NatsEffect)
        → Accepts env
        → IsDelivered info ev
        → process_message env options message handler h
          ≡ settle_message env options message info ev
              (reply_of h)
              (running (env.ticks (running 0 h)) h)
    unfolding process_message process_with_info process_accepted
    delivered-eq h up d =
        let small : ltb options.max_event_bytes (length message.payload) ≡ false =
          ground (arith, d.fits) in
        rw (d.informed, small, d.decoded, times-accepted up (env.ticks (running 0 h)) (running 0 h))
          refl

-- With a broker that refuses nothing, processing an event calls its handler once and then does what
-- the shared policy decides from JetStream's count of deliveries and from the handler's reply: it ends
-- the event, or sends a dead letter and ends it, or asks for another delivery.
pub process_message-decides :
    (env : NatsEnvironment) (options : NatsTransportOptions) (message : JetMessage)
    (handler : MessageHandlerDef) (info : Info) (ev : EventEnvelope) (h : List NatsEffect)
    → Accepts env
    → IsDelivered env options message info ev
    → let r = process_message env options message handler h in
      let decision =
        decide options.max_event_deliveries info.delivered
          (reply_of env options message handler info ev h) in
      (r.0 ≡ ok tt)
      × (tally (of_kind ends) r.1 ≡ acknowledgements decision + tally (of_kind ends) h)
      × (tally (of_kind asks_again) r.1 ≡ redeliveries decision + tally (of_kind asks_again) h)
      × (tally is_dead_letter r.1
          ≡ dead_letters options.dead_letter_subject decision + tally is_dead_letter h)
      × (tally is_invocation r.1 ≡ suc (tally is_invocation h))
process_message-decides env options message handler info ev h up d =
    let start = running env options message handler info ev 0 h in
    let n = env.ticks start in
    let reply = reply_of env options message handler info ev h in
    let decision = decide options.max_event_deliveries info.delivered reply in
    let (a, b, c, f, g) =
      settle_message-Settles env options message up info ev reply
        (running env options message handler info ev n h) in
    let same : (p : NatsEffect → Bool)
        → p (ack_with progress) ≡ false
        → tally p (running env options message handler info ev n h) ≡ tally p start =
      λ p e. tally-repeated p n (ack_with progress) start e in
    rw (delivered-eq env options message handler info ev h up d) (
      a,
      b ∙ ap (λ k. acknowledgements decision + k) (same (of_kind ends) refl),
      c ∙ ap (λ k. redeliveries decision + k) (same (of_kind asks_again) refl),
      f
          ∙ ap (λ k. dead_letters options.dead_letter_subject decision + k)
              (same is_dead_letter refl),
      g ∙ same is_invocation refl,
    )
