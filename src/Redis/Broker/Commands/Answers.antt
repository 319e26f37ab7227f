-- ===== src/Redis/Broker/Commands/Answers.antt =====
-- crates/caelix-microservices/src/redis_transport.rs: what the broker answers to the completion of a
-- command.
use caelix.Prelude.{String, ◌≡◌, refl, Option-cases, ◌⊎◌, inl, inr, Option, none, some, List, ◌∷◌}
use caelix.Messages.{
  RequestEnvelope, ResponseBody, MicroserviceError, transport, Encoded, bytes, refused, error,
  plain_error,
}
use caelix.Messages.Effects.{Result, err, also}
use caelix.Redis.{RedisTransportOptions}
use caelix.Redis.Broker.{Entry, Effect, xack_xdel, Environment, ack_delete}
use caelix.Redis.Broker.Commands.{
  complete_with, publish_command_response_and_complete, publish_command_error_and_complete,
}

-- The broker's answer to the completion, which was sent last: accepted, or refused with that error.
abbrev pub IsAnswered :
    Environment → Entry → Result MicroserviceError (Unit {0}) × List Effect → Type 0
IsAnswered env entry r =
    (before : List Effect) × (r.1 ≡ xack_xdel entry ∷ before)
    × ((env.answer before (xack_xdel entry) ≡ none)
        ⊎ ((e : String) × (env.answer before (xack_xdel entry) ≡ some e)
            × (r.0 ≡ err (transport e))))

module _ (env : Environment) (options : RedisTransportOptions) (entry : Entry) where
  ack_delete-IsAnswered :
      (h : List Effect) (m : Result MicroserviceError (Unit {0}))
      → IsAnswered env entry (also (ack_delete env entry h).0 m, (ack_delete env entry h).1)
  ack_delete-IsAnswered h m = elim (Option-cases (env.answer h (xack_xdel entry))) [
    | inl fine ↦ (h, refl, inl fine)
    | inr (e, bad) ↦ (h, refl, inr (e, bad, rw bad refl))
  ]

  complete_with-IsAnswered :
      (reply : Encoded) (channel : Option String) (h : List Effect)
      → IsAnswered env entry (complete_with env options entry reply channel h)
  complete_with-IsAnswered (bytes b) none h = ack_delete-IsAnswered h _
  complete_with-IsAnswered (bytes b) (some channel) h = ack_delete-IsAnswered _ _
  complete_with-IsAnswered (refused m) channel h = ack_delete-IsAnswered h _

  pub respond-IsAnswered :
      (request : RequestEnvelope) (body : ResponseBody) (h : List Effect)
      → IsAnswered env entry
          (publish_command_response_and_complete env options entry request body h)
  unfolding publish_command_response_and_complete
  respond-IsAnswered request body h = complete_with-IsAnswered _ request.reply_channel h

  pub errors-IsAnswered :
      (request : RequestEnvelope) (code message : String) (h : List Effect)
      → IsAnswered env entry
          (publish_command_error_and_complete env options entry request code message h)
  unfolding publish_command_error_and_complete
  errors-IsAnswered request code message h =
      respond-IsAnswered request (error (plain_error code message)) h

  pub dropped-IsAnswered : (h : List Effect) → IsAnswered env entry (ack_delete env entry h)
  dropped-IsAnswered h = elim (Option-cases (env.answer h (xack_xdel entry))) [
    | inl fine ↦ (h, refl, inl fine)
    | inr (e, bad) ↦ (h, refl, inr (e, bad, rw bad refl))
  ]
