-- ===== src/Redis/Broker.antt =====
-- crates/caelix-microservices/src/redis_transport.rs: the commands that the transport sends to Redis
-- for an entry of a stream, and the heartbeats while a handler runs.
-- `Environment` holds what is not the transport's code: the broker's answers, the clock, when
-- heartbeats come due, the handlers, and the serializer. Each is a function of the effects so far.
pub mod Tallies
pub mod Commands
pub mod Events
use caelix.Prelude.{
  ℕ, zero, suc, ◌/◌, max, String, Bool, true, false, Option, none, some, List, [], ◌∷◌, leb,
  if◌then◌else◌,
}
use caelix.Maps.{get}
use caelix.Metadata.{MessageHandlerDef}
use caelix.Messages.{
  Bytes, Value, RemoteError, RequestEnvelope, ResponseEnvelope, EventEnvelope, MessageContext,
  Reply, Encoded, MicroserviceError, transport,
}
use caelix.Messages.Effects.{Result, ok, err, Action, pure, send, note, times, ◌>>◌}

pub record DeadLetterEnvelope : Type 0 where
  pub version : ℕ
  pub subject : String
  pub event : EventEnvelope
  pub source_stream : String
  pub source_group : String
  pub consumer : String
  pub deliveries : ℕ
  pub failed_at_unix_millis : ℕ
  pub error : RemoteError

-- An entry that the consumer of a group has read.
pub record Entry : Type 0 where
  pub stream : String
  pub group : String
  pub consumer : String
  pub id : String

pub data Effect : Type 0 where
  xack xack_xdel xclaim xpending : Entry → Effect
  publish : (channel : String) → Bytes → Effect
  xadd : (stream : String) → Bytes → Effect
  invocation : MessageHandlerDef → MessageContext → Value → Effect

pub record Environment : Type 0 where
  pub answer : List Effect → Effect → Option String
  pub times_delivered : List Effect → Option ℕ
  pub now : List Effect → ℕ
  pub ticks : List Effect → ℕ
  pub invoke : List Effect → MessageHandlerDef → MessageContext → Value → Reply
  pub as_bytes : Bytes → Option Bytes
  pub as_text : Bytes → Option String
  pub as_request : Bytes → Option RequestEnvelope
  pub as_event : Bytes → Option EventEnvelope
  pub response_bytes : ResponseEnvelope → Encoded
  pub dead_letter_bytes : DeadLetterEnvelope → Encoded

abbrev pub Step : Type 0 → Type 0
Step = Action Effect MicroserviceError

-- `field`: none for a field that is missing or of another type.
abbrev pub field {ℓ} : {T : Type ℓ} → (Bytes → Option T) → List (String × Bytes) → String → Option T
field convert fields name = elim (get fields name) [ none ↦ none | some v ↦ convert v ]

unfoldable pub delivery_attempt : ℕ → ℕ
delivery_attempt times_delivered = max times_delivered 1

-- The period of the heartbeat.
unfoldable pub pending_heartbeat : ℕ → ℕ
pending_heartbeat reclaim_after = max (reclaim_after / 2) 1

module _ (env : Environment) (entry : Entry) where
  abbrev pub ask : Effect → Step (Unit {0})
  ask = send transport env.answer

  abbrev pub ack : Step (Unit {0})
  ack = ask (xack entry)

  abbrev pub ack_delete : Step (Unit {0})
  ack_delete = ask (xack_xdel entry)

  abbrev pub touch_pending : Step (Unit {0})
  touch_pending = ask (xclaim entry)

  abbrev pub attempt_in : Option ℕ → ℕ
  attempt_in none = 1
  attempt_in (some n) = delivery_attempt n

  abbrev pub pending_attempt : Step ℕ
  pending_attempt = ask (xpending entry) >> λ h. (ok (attempt_in (env.times_delivered h)), h)

  -- The heartbeats that come due before the handler returns.
  abbrev pub heartbeats : Step (Unit {0})
  heartbeats h = times (env.ticks h) touch_pending h

  unfoldable pub deadline_elapsed : List Effect → Option ℕ → Bool
  deadline_elapsed h none = false
  deadline_elapsed h (some deadline) = leb deadline (env.now h)

  -- The handler is called; its future is polled beside the heartbeats.
  abbrev pub invoke_handler : MessageHandlerDef → MessageContext → Value → Step Reply
  invoke_handler handler context payload =
      note (invocation handler context payload)
      >> (heartbeats >> λ h. (ok (env.invoke h handler context payload), h))
