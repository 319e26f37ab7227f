-- ===== src/Redis/Broker/Events/Kept.antt =====
-- crates/caelix-microservices/src/redis_transport.rs: no event is lost, whatever the broker refuses.
use caelix.Prelude.{
  ℕ, String, ◌≡◌, ◌≢◌, refl, ◌∙◌, ◌⊎◌, inl, inr, leb, Option, none, some, List, ◌∷◌, Bool-cases,
  Option-cases,
}
use caelix.Errors.{HttpException}
use caelix.Metadata.{MessageHandlerDef}
use caelix.Messages.{
  Bytes, EventEnvelope, Reply, returned, raised, MicroserviceError, Encoded, bytes, refused,
  is_client_error,
}
use caelix.Messages.Effects.{Result}
use caelix.Messages.Policy.{finish, bury, decide}
use caelix.Redis.{RedisTransportOptions}
use caelix.Redis.Broker.{DeadLetterEnvelope, Entry, Effect, ack, xack, xadd, Environment}
use caelix.Redis.Broker.Tallies.{is_completion, tally}
use caelix.Redis.Broker.Events.{
  settle_event, bury_event, process_event_entry, dead_letter, publish_dead_letter,
}
use caelix.Redis.Broker.Events.Treatment.{
  Delivery, IsDeliverable, attempt_of, running, beats, reply_of, discarded, uncounted, interrupted,
  settled, process_event_entry-Treatment,
}
use caelix.Redis.Broker.Events.Settlement.{tally-running}

-- The broker took the dead letter, which holds the event, from `h`, and the event was acknowledged
-- after that.
abbrev pub IsBuried :
    Environment → Entry → DeadLetterEnvelope → Option String → (h h' : List Effect) → Type 0
IsBuried env entry letter place h h' =
    (stream : String) × (failure : Bytes) × (place ≡ some stream)
    × (env.dead_letter_bytes letter ≡ bytes failure)
    × (env.answer h (xadd stream failure) ≡ none)
    × (h' ≡ xack entry ∷ xadd stream failure ∷ h)

module _ (env : Environment) (options : RedisTransportOptions) (entry : Entry) where
  abbrev Grew : List Effect → Result MicroserviceError (Unit {0}) × List Effect → Type 0
  Grew h r = tally is_completion r.1 ≢ tally is_completion h

  publish-IsBuried :
      (letter : DeadLetterEnvelope) (enc : Encoded) (stream : String) (h : List Effect)
      → env.dead_letter_bytes letter ≡ enc
      → Grew h (publish_dead_letter env options entry enc stream h)
      → IsBuried env entry letter
          (some stream)
          h
          (publish_dead_letter env options entry enc stream h).1
  publish-IsBuried letter (refused m) stream h e grew = absurd (grew refl)
  publish-IsBuried letter (bytes f) stream h e grew =
      elim (Option-cases (env.answer h (xadd stream f))) [
        | inl fine ↦ (stream, f, refl, e, fine, rw fine refl)
        | inr (m, bad) ↦ absurd (grew (rw bad refl))
      ]

  abbrev pub Finished : String → EventEnvelope → ℕ → Reply → (h h' : List Effect) → Type 0
  Finished subject ev attempt reply h h' =
      (decide options.max_event_deliveries attempt reply ≡ finish)
      ⊎ ((decide options.max_event_deliveries attempt reply ≡ bury)
          × ((options.dead_letter_stream ≡ none)
              ⊎ ((e : HttpException) × (reply ≡ raised e)
                  × IsBuried env entry
                      (dead_letter env options entry subject ev attempt e (env.now h))
                      options.dead_letter_stream h h')))

  bury-cases :
      (place : Option String) (subject : String) (ev : EventEnvelope) (attempt : ℕ)
      (e : HttpException) (h : List Effect)
      → Grew h (bury_event env options entry place subject ev attempt e h)
      → (place ≡ none)
        ⊎ IsBuried env entry
            (dead_letter env options entry subject ev attempt e (env.now h))
            place
            h
            (bury_event env options entry place subject ev attempt e h).1
  unfolding bury_event
  bury-cases none subject ev attempt e h grew = inl refl
  bury-cases (some s) subject ev attempt e h grew = inr (
      publish-IsBuried (dead_letter env options entry subject ev attempt e (env.now h)) _ s h refl
        grew)

  pub settle-Finished :
      (subject : String) (ev : EventEnvelope) (attempt : ℕ) (reply : Reply) (h : List Effect)
      → Grew h (settle_event env options entry subject ev attempt reply h)
      → Finished subject ev attempt reply h
          (settle_event env options entry subject ev attempt reply h).1
  unfolding settle_event decide
  settle-Finished subject ev attempt (returned v) h grew = inl refl
  settle-Finished subject ev attempt (raised e) h grew =
      elim (Bool-cases (is_client_error e.status)) [
        | inl client ↦ inl (rw client refl)
        | inr server ↦ elim (Bool-cases (leb options.max_event_deliveries attempt)) [
          | inr early ↦ absurd (grew (rw (server, early) refl))
          | inl last ↦ inr (
            rw (server, last) refl,
            elim (bury-cases options.dead_letter_stream subject ev attempt e h
                (rw (server, last) at grew)) [
                  | inl nowhere ↦ inl nowhere
                  | inr buried ↦ inr (e, refl, rw (server, last) buried)
                ],
          )
        ]
      ]

-- An entry is acknowledged in three cases only. It is not deliverable, and then nothing else is done.
-- Or the policy finishes its event, from the handler's reply. Or the policy buries it at the last
-- attempt, and either no dead-letter stream is configured or the broker took the dead letter before.
pub process_event_entry-Kept :
    (env : Environment) (options : RedisTransportOptions) (entry : Entry)
    (handlers : List MessageHandlerDef) (fields : List (String × Bytes)) (h : List Effect)
    → let r = process_event_entry env options entry handlers fields h in
      tally is_completion r.1 ≢ tally is_completion h
      → (((d : Delivery) → IsDeliverable env options entry handlers fields d → ⊥)
          × (r ≡ ack env entry h))
        ⊎ ((d : Delivery) × IsDeliverable env options entry handlers fields d
            × Finished env options entry d.subject d.event
                (attempt_of env options entry handlers h)
                (reply_of env options entry handlers d h)
                (running env options entry handlers d (beats env options entry handlers d h) h)
                r.1)
process_event_entry-Kept env options entry handlers fields h grew =
    elim (process_event_entry-Treatment env options entry handlers fields h) [
      | discarded un e ↦ inl (un, e)
      | uncounted m e ↦ absurd (grew (rw e refl))
      | interrupted d k m g e ↦
          absurd (grew (rw e (tally-running env options entry handlers is_completion d k h refl)))
      | settled d g e ↦
          let n = beats env options entry handlers d h in
          let same = tally-running env options entry handlers is_completion d n h refl in
          inr (
            d,
            g,
            rw e (
                settle-Finished env options entry d.subject d.event
                  (attempt_of env options entry handlers h)
                  (reply_of env options entry handlers d h)
                  (running env options entry handlers d n h) (λ f. grew (rw e (f ∙ same)))),
          )
    ]
