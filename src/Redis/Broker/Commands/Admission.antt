-- ===== src/Redis/Broker/Commands/Admission.antt =====
-- crates/caelix-microservices/src/redis_transport.rs: which command entries reach the handler.
use caelix.Prelude.{
  ℕ, ◌≤◌, ◌<◌, String, ◌≡◌, refl, sym, subst, inl, inr, Bool, true, false, ltb, Option, none, some,
  List, ◌==◌, ==_iff, length, Bool-cases, Option-cases, arith,
}
use caelix.Metadata.{MessageHandlerDef}
use caelix.Messages.{Bytes, RequestEnvelope, MicroserviceError, protocol_version}
use caelix.Messages.Effects.{Result}
use caelix.Redis.{RedisTransportOptions}
use caelix.Redis.Broker.{Entry, Effect, Environment, field, ack_delete, deadline_elapsed}
use caelix.Redis.Broker.Commands.{
  is_unanswerable, invoke_command, before_deadline, process_request, process_envelope,
  process_command_entry, publish_command_error_and_complete,
}

module _ (env : Environment) (options : RedisTransportOptions) where
  -- The request that an entry holds, within the bounds, with an address to reply to.
  pub record IsAnswerable (fields : List (String × Bytes)) (request : RequestEnvelope)
      : Type 0 where
    pub envelope : Bytes
    pub found : field env.as_bytes fields "envelope" ≡ some envelope
    pub fits : length envelope ≤ options.max_request_bytes
    pub decoded : env.as_request envelope ≡ some request
    pub answerable : is_unanswerable request ≡ false

  -- A request of this protocol version whose deadline is ahead.
  pub record IsAdmitted (h : List Effect) (fields : List (String × Bytes))
      (request : RequestEnvelope) : Type 0 where
    pub sound : IsAnswerable fields request
    pub versioned : request.version ≡ protocol_version
    pub in_time : (d : ℕ) → request.deadline_unix_millis ≡ some d → env.now h < d

  module _ (entry : Entry) (handler : MessageHandlerDef) (fields : List (String × Bytes)) where
    -- What is done for an entry.
    pub data Treatment (h : List Effect) (r : Result MicroserviceError (Unit {0}) × List Effect)
        : Type 0 where
      dropped : r ≡ ack_delete env entry h → Treatment h r
      answered :
          (request : RequestEnvelope) (code message : String)
          → IsAnswerable fields request
          → r ≡ publish_command_error_and_complete env options entry request code message h
          → Treatment h r
      admitted :
          (request : RequestEnvelope)
          → IsAdmitted h fields request
          → r ≡ invoke_command env options entry handler request h
          → Treatment h r

    elapsed_iff :
        (h : List Effect) (deadline : Option ℕ)
        → deadline_elapsed env entry h deadline ≡ false
        → (d : ℕ) → deadline ≡ some d
        → env.now h < d
    unfolding deadline_elapsed
    elapsed_iff h none e d f = cc f
    elapsed_iff h (some c) e d f = ground arith

    before_deadline-Treatment :
        (h : List Effect) (request : RequestEnvelope) (elapsed : Bool)
        → IsAnswerable fields request
        → request.version ≡ protocol_version
        → (elapsed ≡ false → (d : ℕ) → request.deadline_unix_millis ≡ some d → env.now h < d)
        → Treatment h (before_deadline env options entry handler elapsed request h)
    unfolding before_deadline
    before_deadline-Treatment h request true sound v t = answered request _ _ sound refl
    before_deadline-Treatment h request false sound v t =
        admitted request (record { sound = sound; versioned = v; in_time = t refl }) refl

    process_request-Treatment :
        (h : List Effect) (b : Bytes)
        → field env.as_bytes fields "envelope" ≡ some b
        → length b ≤ options.max_request_bytes
        → (request : Option RequestEnvelope) → env.as_request b ≡ request
        → Treatment h (process_request env options entry handler request h)
    unfolding process_request
    process_request-Treatment h b found fits none e = dropped refl
    process_request-Treatment h b found fits (some request) e =
        elim (Bool-cases (is_unanswerable request)) [
          | inl bad ↦ dropped (rw bad refl)
          | inr good ↦
              let sound : IsAnswerable fields request = record {
                envelope = b;
                found = found;
                fits = fits;
                decoded = e;
                answerable = good;
              } in
              elim (Bool-cases (request.version == protocol_version)) [
                | inl same ↦
                    subst (λ r. Treatment h r) (sym (rw (good, same) refl))
                      (before_deadline-Treatment h request
                        (deadline_elapsed env entry h request.deadline_unix_millis) sound
                        ((==_iff request.version protocol_version).0 same)
                        (elapsed_iff h request.deadline_unix_millis))
                | inr other ↦
                    answered request "Protocol" "unsupported request protocol version" sound
                      (rw (good, other) refl)
              ]
        ]

    pub process_command_entry-Treatment :
        (h : List Effect) → Treatment h (process_command_entry env options entry handler fields h)
    unfolding process_command_entry process_envelope
    process_command_entry-Treatment h = elim (Option-cases (field env.as_bytes fields "envelope")) [
      | inl missing ↦ dropped (rw missing refl)
      | inr (b, found) ↦ elim (Bool-cases (ltb options.max_request_bytes (length b))) [
        | inl large ↦ dropped (rw (found, large) refl)
        | inr small ↦
            subst (λ r. Treatment h r) (sym (rw (found, small) refl))
              (process_request-Treatment h b found (ground arith) (env.as_request b) refl)
      ]
    ]

    in_time-elapsed :
        (h : List Effect) (deadline : Option ℕ)
        → ((d : ℕ) → deadline ≡ some d → env.now h < d)
        → deadline_elapsed env entry h deadline ≡ false
    unfolding deadline_elapsed
    in_time-elapsed h none t = refl
    in_time-elapsed h (some c) t = ground (arith, t c refl)

    -- An admitted command is handed to the handler.
    pub admitted-eq :
        (h : List Effect) (request : RequestEnvelope)
        → IsAdmitted h fields request
        → process_command_entry env options entry handler fields h
          ≡ invoke_command env options entry handler request h
    unfolding process_command_entry process_envelope process_request before_deadline
    admitted-eq h request a =
        let small : ltb options.max_request_bytes (length a.sound.envelope) ≡ false =
          ground (arith, a.sound.fits) in
        let same : (request.version == protocol_version) ≡ true =
          (==_iff request.version protocol_version).1 a.versioned in
        let ahead = in_time-elapsed h request.deadline_unix_millis a.in_time in
        rw (a.sound.found, small, a.sound.decoded, a.sound.answerable, same, ahead) refl
