-- ===== src/Redis/Broker/Events/Redelivery.antt =====
-- crates/caelix-microservices/src/redis_transport.rs: an event that is delivered again and again.
use caelix.Prelude.{
  ℕ, zero, suc, ◌+◌, ◌≤◌, String, ◌≡◌, refl, ap, ◌∙◌, ◌⊎◌, inl, inr, true, false, ltb, leb, some,
  List, if◌then◌else◌, Bool-cases, arith,
}
use caelix.Metadata.{MessageHandlerDef}
use caelix.Messages.{Bytes}
use caelix.Messages.Policy.{Decision, finish, bury, retry, acknowledgements, decide-last}
use caelix.Redis.{RedisTransportOptions, Setter, set_options, default_options}
use caelix.Redis.Options.{set_options-IsBounded}
use caelix.Redis.Broker.{Entry, Effect, Environment, delivery_attempt}
use caelix.Redis.Broker.Tallies.{is_invocation, is_completion, tally, Accepts}
use caelix.Redis.Broker.Events.{process_event_entry}
use caelix.Redis.Broker.Events.Treatment.{Delivery, IsDeliverable, reply_of}
use caelix.Redis.Broker.Events.Settlement.{Encodes, process_event_entry-decides, decision_of}

acknowledgements-cases : (d : Decision) → (acknowledgements d ≡ 1) ⊎ (acknowledgements d ≡ 0)
acknowledgements-cases finish = inl refl
acknowledgements-cases bury = inl refl
acknowledgements-cases retry = inr refl

delivery_attempt-ge : (k : ℕ) → k ≤ delivery_attempt k
unfolding delivery_attempt
delivery_attempt-ge k = omega arith

-- The broker that reports attempt k.
abbrev pub at_attempt : Environment → ℕ → Environment
at_attempt env k = record env { times_delivered = λ h. some k }

module _ (env : Environment) (options : RedisTransportOptions) (entry : Entry)
    (handlers : List MessageHandlerDef) (fields : List (String × Bytes)) where
  abbrev pub deliver : ℕ → List Effect → List Effect
  deliver k h = (process_event_entry (at_attempt env k) options entry handlers fields h).1

  -- Deliveries until the event is acknowledged, of which the first is attempt k.
  pub redeliver : (fuel k : ℕ) → List Effect → List Effect
  redeliver zero k h = h
  redeliver (suc n) k h =
      let h' = deliver k h in
      let later = redeliver n (suc k) h' in
      if ltb (tally is_completion h) (tally is_completion h') then h' else later

  at_attempt-IsDeliverable :
      (k : ℕ) (d : Delivery)
      → IsDeliverable env options entry handlers fields d
      → IsDeliverable (at_attempt env k) options entry handlers fields d
  at_attempt-IsDeliverable k d g = record {
    envelope = g.envelope;
    addressed = g.addressed;
    found = g.found;
    fits = g.fits;
    decoded = g.decoded;
    handled = g.handled;
  }

  module _ (d : Delivery) (g : IsDeliverable env options entry handlers fields d) (up : Accepts env)
      (enc : Encodes env) where
    redeliver-ends :
        (fuel k : ℕ) (h : List Effect)
        → k + fuel ≡ suc options.max_event_deliveries
        → 1 ≤ fuel
        → (tally is_completion (redeliver fuel k h) ≡ suc (tally is_completion h))
          × (tally is_invocation (redeliver fuel k h) ≤ fuel + tally is_invocation h)
    unfolding redeliver
    redeliver-ends zero k h total some_left = absurd (omega arith)
    redeliver-ends (suc n) k h total some_left =
        let (a, acked, buried, called) =
          process_event_entry-decides (at_attempt env k) options entry handlers fields d h
            (at_attempt-IsDeliverable k d g) up enc in
        let decision = decision_of (at_attempt env k) options entry handlers d h in
        elim (acknowledgements-cases decision) [
          | inl one ↦
              let grew : ltb (tally is_completion h) (tally is_completion (deliver k h)) ≡ true =
                ground (arith, acked, one) in
              rw grew (omega (arith, acked, one), omega (arith, called))
          | inr none_yet ↦
              let same : tally is_completion (deliver k h) ≡ tally is_completion h =
                omega (arith, acked, none_yet) in
              let grew : ltb (tally is_completion h) (tally is_completion (deliver k h)) ≡ false =
                ground (arith, same) in
              let more : 1 ≤ n = elim (Bool-cases (leb options.max_event_deliveries k)) [
                | inl last ↦
                    let done_now =
                      decide-last options.max_event_deliveries (delivery_attempt k)
                        (reply_of (at_attempt env k) options entry handlers d h)
                        (ground (arith, delivery_attempt-ge k)) in
                    absurd (omega (arith, none_yet, done_now))
                | inr early ↦ ground (arith, total)
              ] in
              let (b, c) = redeliver-ends n (suc k) (deliver k h) (omega (arith, total)) more in
              rw grew (b ∙ ap suc same, omega (arith, c, called))
        ]

-- With a broker that refuses nothing, and options that the builder has made, a deliverable event is
-- acknowledged, once, within `max_event_deliveries` deliveries, whatever its handler does, and the
-- handler is called at most that often.
pub redeliver-acknowledges :
    (env : Environment) (server : String) (ss : List Setter) (entry : Entry)
    (handlers : List MessageHandlerDef) (fields : List (String × Bytes)) (d : Delivery)
    (h : List Effect)
    → let options = set_options ss (default_options server) in
      IsDeliverable env options entry handlers fields d
      → Accepts env
      → Encodes env
      → let h' = redeliver env options entry handlers fields options.max_event_deliveries 1 h in
        (tally is_completion h' ≡ suc (tally is_completion h))
        × (tally is_invocation h' ≤ options.max_event_deliveries + tally is_invocation h)
redeliver-acknowledges env server ss entry handlers fields d h g up enc =
    let options = set_options ss (default_options server) in
    redeliver-ends env options entry handlers fields d g up enc options.max_event_deliveries 1 h
      (omega arith) (set_options-IsBounded server ss).deliveries
