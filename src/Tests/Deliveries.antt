-- ===== src/Tests/Deliveries.antt =====
-- The Redis transport on concrete events.
use caelix.Prelude.{◌+◌, ◌≤◌, ◌≡◌, ◌≢◌, refl, ◌⊎◌, some, List, [], ◌∷◌, arith}
use caelix.Messages.{raised, MicroserviceError}
use caelix.Messages.Effects.{Result, ok}
use caelix.Messages.Patterns.{nats_pattern_matches}
use caelix.Messages.Policy.{acknowledgements, dead_letters}
use caelix.Redis.Broker.{Effect, ack, Environment, delivery_attempt}
use caelix.Redis.Broker.Tallies.{tally, is_completion, is_invocation, is_dead_letter}
use caelix.Redis.Broker.Events.{process_event_entry, process_event, find_handler}
use caelix.Redis.Broker.Events.Treatment.{
  Delivery, IsDeliverable, attempt_of, reply_of, running, beats,
}
use caelix.Redis.Broker.Events.Settlement.{decision_of, process_event_entry-decides}
use caelix.Redis.Broker.Events.Kept.{Finished, process_event_entry-Kept}
use caelix.Redis.Broker.Events.Redelivery.{redeliver, redeliver-acknowledges}
use caelix.Tests.Streams.{
  an_entry, orders, shipped, an_event, outage, broker, setters, settings, stored,
}

abbrev failing : Environment
failing = broker (raised outage)

abbrev a_delivery : Delivery
a_delivery = record { subject = "orders.shipped"; event = an_event; handler = shipped }

a_delivery-IsDeliverable :
    IsDeliverable failing settings an_entry (orders ∷ shipped ∷ []) stored a_delivery
unfolding find_handler nats_pattern_matches
a_delivery-IsDeliverable = record {
  envelope = 4 ∷ [];
  addressed = refl;
  found = refl;
  fits = omega arith;
  decoded = refl;
  handled = refl;
}

abbrev tried : Result MicroserviceError (Unit {0}) × List Effect
tried = process_event_entry failing settings an_entry (orders ∷ shipped ∷ []) stored []

process_event_entry-decides_example :
    let decision = decision_of failing settings an_entry (orders ∷ shipped ∷ []) a_delivery [] in
    (tried.0 ≡ ok tt)
    × (tally is_completion tried.1 ≡ acknowledgements decision + 0)
    × (tally is_dead_letter tried.1 ≡ dead_letters (some "dead") decision + 0)
    × (tally is_invocation tried.1 ≡ 1)
process_event_entry-decides_example =
    process_event_entry-decides failing settings an_entry (orders ∷ shipped ∷ []) stored a_delivery
      [] a_delivery-IsDeliverable (λ h x. refl) (λ x. (9 ∷ [], refl))

-- The last attempt.
abbrev at_last : Environment
at_last = record failing { times_delivered = λ h. some 3 }

abbrev last_try : Result MicroserviceError (Unit {0}) × List Effect
last_try = process_event_entry at_last settings an_entry (orders ∷ shipped ∷ []) stored []

buried : (tally is_completion last_try.1 ≡ 1) × (tally is_dead_letter last_try.1 ≡ 1)
unfolding process_event_entry find_handler nats_pattern_matches process_event delivery_attempt
buried = (refl, refl)

last_try_grew : tally is_completion last_try.1 ≢ 0
last_try_grew e = omega (arith, e, buried.0)

process_event_entry-Kept_example :
    (((d : Delivery) → IsDeliverable at_last settings an_entry (orders ∷ shipped ∷ []) stored d → ⊥)
      × (last_try ≡ ack at_last an_entry []))
    ⊎ ((d : Delivery) × IsDeliverable at_last settings an_entry (orders ∷ shipped ∷ []) stored d
        × Finished at_last settings an_entry d.subject d.event
            (attempt_of at_last settings an_entry (orders ∷ shipped ∷ []) [])
            (reply_of at_last settings an_entry (orders ∷ shipped ∷ []) d [])
            (running at_last settings an_entry
              (orders ∷ shipped ∷ [])
              d
              (beats at_last settings an_entry (orders ∷ shipped ∷ []) d [])
              [])
            last_try.1)
process_event_entry-Kept_example =
    process_event_entry-Kept at_last settings an_entry (orders ∷ shipped ∷ []) stored []
      last_try_grew

redeliver-acknowledges_example :
    let h' = redeliver failing settings an_entry (orders ∷ shipped ∷ []) stored 3 1 [] in
    (tally is_completion h' ≡ 1) × (tally is_invocation h' ≤ 3 + 0)
redeliver-acknowledges_example =
    redeliver-acknowledges failing "redis://localhost" setters an_entry (orders ∷ shipped ∷ [])
      stored a_delivery [] a_delivery-IsDeliverable (λ h x. refl) (λ x. (9 ∷ [], refl))
