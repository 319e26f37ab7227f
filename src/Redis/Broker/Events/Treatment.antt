-- ===== src/Redis/Broker/Events/Treatment.antt =====
-- crates/caelix-microservices/src/redis_transport.rs: the ways in which an event entry is treated.
use caelix.Prelude.{
  ℕ, ◌≤◌, String, ◌≡◌, refl, sym, subst, inl, inr, false, ltb, none, some, List, ◌∷◌, length,
  Bool-cases, Option-cases, arith,
}
use caelix.Metadata.{MessageHandlerDef}
use caelix.Messages.{Bytes, EventEnvelope, Reply, MicroserviceError, transport}
use caelix.Messages.Effects.{Result, err}
use caelix.Redis.{RedisTransportOptions}
use caelix.Redis.Broker.{
  Entry, Effect, xpending, xclaim, invocation, Environment, field, ack, attempt_in,
}
use caelix.Redis.Broker.Tallies.{repeated, times-Beats, Accepts, times-accepted}
use caelix.Redis.Broker.Events.{
  find_handler, accept_event, event_context, settle_event, handle_event, process_event,
  process_event_entry,
}

-- What a deliverable entry holds.
pub record Delivery : Type 0 where
  pub subject : String
  pub event : EventEnvelope
  pub handler : MessageHandlerDef

module _ (env : Environment) (options : RedisTransportOptions) (entry : Entry)
    (handlers : List MessageHandlerDef) where
  pub record IsDeliverable (fields : List (String × Bytes)) (d : Delivery) : Type 0 where
    pub envelope : Bytes
    pub addressed : field env.as_text fields "subject" ≡ some d.subject
    pub found : field env.as_bytes fields "envelope" ≡ some envelope
    pub fits : length envelope ≤ options.max_event_bytes
    pub decoded : accept_event (env.as_event envelope) ≡ some d.event
    pub handled : find_handler handlers d.subject ≡ some d.handler

  -- The attempt that the broker reports.
  abbrev pub attempt_of : List Effect → ℕ
  attempt_of h = attempt_in env entry (env.times_delivered (xpending entry ∷ h))

  -- The history once the handler is called and n heartbeats were sent.
  abbrev pub running : Delivery → ℕ → List Effect → List Effect
  running d n h = repeated n (xclaim entry) (
      invocation d.handler (event_context env options entry d.subject d.event (attempt_of h))
        d.event.payload
      ∷ xpending entry
      ∷ h)

  abbrev pub beats : Delivery → List Effect → ℕ
  beats d h = env.ticks (running d 0 h)

  abbrev pub reply_of : Delivery → List Effect → Reply
  reply_of d h =
      env.invoke (running d (beats d h) h) d.handler
        (event_context env options entry d.subject d.event (attempt_of h)) d.event.payload

  pub data Treatment (fields : List (String × Bytes)) (h : List Effect)
      (r : Result MicroserviceError (Unit {0}) × List Effect) : Type 0 where
    discarded :
        ((d : Delivery) → IsDeliverable fields d → ⊥) → r ≡ ack env entry h → Treatment fields h r
    uncounted : (e : String) → r ≡ (err (transport e), xpending entry ∷ h) → Treatment fields h r
    interrupted :
        (d : Delivery) (k : ℕ) (e : String)
        → IsDeliverable fields d
        → r ≡ (err (transport e), xclaim entry ∷ running d k h)
        → Treatment fields h r
    settled :
        (d : Delivery)
        → IsDeliverable fields d
        → r
          ≡ settle_event env options entry d.subject d.event
              (attempt_of h)
              (reply_of d h)
              (running d (beats d h) h)
        → Treatment fields h r

  handle_event-Treatment :
      (fields : List (String × Bytes)) (d : Delivery) (h : List Effect)
      → IsDeliverable fields d
      → Treatment fields h (handle_event env options entry (some d.handler) d.subject d.event h)
  unfolding handle_event
  handle_event-Treatment fields d h good = elim (Option-cases (env.answer h (xpending entry))) [
    | inr (e, bad) ↦ uncounted e (rw bad refl)
    | inl fine ↦ elim (times-Beats env entry (beats d h) (running d 0 h)) [
      | inl all ↦ settled d good (rw (fine, all) refl)
      | inr (k, e, stopped) ↦ interrupted d k e good (rw (fine, stopped) refl)
    ]
  ]

  -- Two deliveries of an entry are the same one; here, what a failed step says.
  no_handler :
      (fields : List (String × Bytes)) (subject : String) (b : Bytes) (ev : EventEnvelope)
      → field env.as_text fields "subject" ≡ some subject
      → field env.as_bytes fields "envelope" ≡ some b
      → accept_event (env.as_event b) ≡ some ev
      → find_handler handlers subject ≡ none
      → (d : Delivery) → IsDeliverable fields d
      → ⊥
  no_handler fields subject b ev a f c e d g =
      let s : subject ≡ d.subject = cc (a, g.addressed) in
      cc (subst (λ x. find_handler handlers x ≡ none) s e, g.handled)

  process_event-Treatment :
      (fields : List (String × Bytes)) (subject : String) (b : Bytes) (h : List Effect)
      → field env.as_text fields "subject" ≡ some subject
      → field env.as_bytes fields "envelope" ≡ some b
      → length b ≤ options.max_event_bytes
      → Treatment fields h
          (process_event env options entry handlers subject (accept_event (env.as_event b)) h)
  unfolding process_event handle_event
  process_event-Treatment fields subject b h a f fits =
      elim (Option-cases (accept_event (env.as_event b))) [
        | inl bad ↦
            discarded
              (λ d g.
                let same : b ≡ g.envelope = cc (f, g.found) in
                cc (subst (λ x. accept_event (env.as_event x) ≡ none) same bad, g.decoded))
              (rw bad refl)
        | inr (ev, good) ↦ elim (Option-cases (find_handler handlers subject)) [
          | inl missing ↦
              discarded (no_handler fields subject b ev a f good missing) (rw (good, missing) refl)
          | inr (handler, e) ↦
              let d : Delivery = record { subject = subject; event = ev; handler = handler } in
              let g : IsDeliverable fields d = record {
                envelope = b;
                addressed = a;
                found = f;
                fits = fits;
                decoded = good;
                handled = e;
              } in
              subst (λ r. Treatment fields h r) (sym (rw (good, e) refl))
                (handle_event-Treatment fields d h g)
        ]
      ]

  pub process_event_entry-Treatment :
      (fields : List (String × Bytes)) (h : List Effect)
      → Treatment fields h (process_event_entry env options entry handlers fields h)
  unfolding process_event_entry
  process_event_entry-Treatment fields h =
      elim (Option-cases (field env.as_text fields "subject")) [
        | inl none_there ↦ discarded (λ d g. cc (none_there, g.addressed)) (rw none_there refl)
        | inr (subject, a) ↦ elim (Option-cases (field env.as_bytes fields "envelope")) [
          | inl missing ↦ discarded (λ d g. cc (missing, g.found)) (rw (a, missing) refl)
          | inr (b, f) ↦ elim (Bool-cases (ltb options.max_event_bytes (length b))) [
            | inl large ↦
                discarded
                  (λ d g.
                    let same : b ≡ g.envelope = cc (f, g.found) in
                    let fits : length b ≤ options.max_event_bytes =
                      subst (λ x. length x ≤ options.max_event_bytes) (sym same) g.fits in
                    ground arith)
                  (rw (a, f, large) refl)
            | inr small ↦
                subst (λ r. Treatment fields h r) (sym (rw (a, f, small) refl))
                  (process_event-Treatment fields subject b h a f (ground arith))
          ]
        ]
      ]

  -- With a broker that refuses nothing, a deliverable event is handled and settled.
  pub deliverable-eq :
      (fields : List (String × Bytes)) (d : Delivery) (h : List Effect)
      → IsDeliverable fields d
      → Accepts env
      → process_event_entry env options entry handlers fields h
        ≡ settle_event env options entry d.subject d.event
            (attempt_of h)
            (reply_of d h)
            (running d (beats d h) h)
  unfolding process_event_entry process_event handle_event
  deliverable-eq fields d h g up =
      let small : ltb options.max_event_bytes (length g.envelope) ≡ false =
        ground (arith, g.fits) in
      let beaten = times-accepted env entry (beats d h) (running d 0 h) up in
      rw (g.addressed, g.found, small, g.decoded, g.handled, up h (xpending entry), beaten) refl
