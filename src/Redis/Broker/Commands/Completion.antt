-- ===== src/Redis/Broker/Commands/Completion.antt =====
-- crates/caelix-microservices/src/redis_transport.rs: how a command entry ends.
use caelix.Prelude.{
  ℕ, suc, ◌≤◌, String, ◌≡◌, refl, sym, subst, ap, ◌∙◌, ◌↔◌, ◌⊎◌, inl, inr, Bool, false, Option,
  none, some, List, ◌∷◌, arith,
}
use caelix.Metadata.{MessageHandlerDef}
use caelix.Messages.{
  Bytes, RequestEnvelope, ResponseBody, MicroserviceError, transport, Encoded, bytes, refused,
  error, plain_error, body_of, encode_response,
}
use caelix.Messages.Effects.{Result, err}
use caelix.Redis.{RedisTransportOptions}
use caelix.Redis.Broker.{Entry, Effect, xack_xdel, xclaim, publish, invocation, Environment}
use caelix.Redis.Broker.Tallies.{
  is_invocation, is_completion, tally, newest, repeated, tally-repeated, times-Beats,
}
use caelix.Redis.Broker.Commands.{
  command_context, complete_with, publish_command_response_and_complete,
  publish_command_error_and_complete, invoke_command, process_command_entry,
}
use caelix.Redis.Broker.Commands.Answers.{IsAnswered}
use caelix.Redis.Broker.Commands.Admission.{
  IsAdmitted, dropped, answered, admitted, process_command_entry-Treatment, admitted-eq,
}

-- The completion of the entry was sent last of all, and once.
abbrev IsSent : Entry → List Effect → List Effect → Type 0
IsSent entry h h' =
    (newest h' ≡ some (xack_xdel entry)) × (tally is_completion h' ≡ suc (tally is_completion h))

-- The entry is acknowledged and deleted, once and last; or this was sent, once and last, and the broker
-- refused it: then that is the error returned, and the entry stays pending.
abbrev pub IsCompleted :
    Environment → Entry → List Effect → Result MicroserviceError (Unit {0}) × List Effect → Type 0
IsCompleted env entry h r =
    (tally is_completion r.1 ≡ suc (tally is_completion h)) × IsAnswered env entry r

-- A heartbeat was refused while the handler ran, and the entry is pending.
abbrev pub IsLost : Entry → List Effect → Result MicroserviceError (Unit {0}) × List Effect → Type 0
IsLost entry h r =
    (e : String) × (r.0 ≡ err (transport e))
    × (newest r.1 ≡ some (xclaim entry))
    × (tally is_completion r.1 ≡ tally is_completion h)

module _ (env : Environment) (options : RedisTransportOptions) (entry : Entry) where
  -- The history after a command is completed from `h`: the reply, if there is one, goes out first.
  pub data Completed (request : RequestEnvelope) (body : ResponseBody) (h h' : List Effect)
      : Type 0 where
    silent : h' ≡ xack_xdel entry ∷ h → Completed request body h h'
    replied :
        (channel : String) (b : Bytes)
        → request.reply_channel ≡ some channel
        → encode_response env.response_bytes request.correlation_id body options.max_response_bytes
          ≡ bytes b
        → h' ≡ xack_xdel entry ∷ publish channel b ∷ h
        → Completed request body h h'

  complete_with-Completed :
      (request : RequestEnvelope) (body : ResponseBody) (h : List Effect) (reply : Encoded)
      (channel : Option String)
      → encode_response env.response_bytes request.correlation_id body options.max_response_bytes
        ≡ reply
      → request.reply_channel ≡ channel
      → Completed request body h (complete_with env options entry reply channel h).1
  complete_with-Completed request body h (bytes b) none e f = silent refl
  complete_with-Completed request body h (bytes b) (some channel) e f = replied channel b f e refl
  complete_with-Completed request body h (refused m) channel e f = silent refl

  pub respond-Completed :
      (request : RequestEnvelope) (body : ResponseBody) (h : List Effect)
      → Completed request body h
          (publish_command_response_and_complete env options entry request body h).1
  unfolding publish_command_response_and_complete
  respond-Completed request body h = complete_with-Completed request body h _ _ refl refl

  -- The history once the handler is called from `h` and n heartbeats were sent.
  abbrev pub running : MessageHandlerDef → RequestEnvelope → ℕ → List Effect → List Effect
  running handler request n h =
      repeated n (xclaim entry)
        (invocation handler (command_context handler request) request.payload ∷ h)

  abbrev pub handled : MessageHandlerDef → RequestEnvelope → ℕ → List Effect → ResponseBody
  handled handler request n h = body_of (
      env.invoke (running handler request n h) handler (command_context handler request)
        request.payload)

  -- A command whose handler is called from `h`.
  pub data Invoked (handler : MessageHandlerDef) (request : RequestEnvelope) (h : List Effect)
      (r : Result MicroserviceError (Unit {0}) × List Effect) : Type 0 where
    -- A heartbeat was refused: nothing is sent after it.
    lost :
        (k : ℕ) (e : String)
        → r ≡ (err (transport e), xclaim entry ∷ running handler request k h)
        → Invoked handler request h r
    finished :
        (n : ℕ)
        → Completed request (handled handler request n h) (running handler request n h) r.1
        → Invoked handler request h r

  pub invoke_command-Invoked :
      (handler : MessageHandlerDef) (request : RequestEnvelope) (h : List Effect)
      → Invoked handler request h (invoke_command env options entry handler request h)
  unfolding invoke_command
  invoke_command-Invoked handler request h =
      let h' = invocation handler (command_context handler request) request.payload ∷ h in
      elim (times-Beats env entry (env.ticks h') h') [
        | inl all ↦
            let n = env.ticks h' in
            let end : Invoked handler request h (
                publish_command_response_and_complete env options entry request
                  (handled handler request n h) (running handler request n h)) =
              finished n (
                respond-Completed request (handled handler request n h)
                  (running handler request n h)) in
            subst (λ r. Invoked handler request h r) (sym (rw all refl)) end
        | inr (k, e, stopped) ↦ lost k e (rw stopped refl)
      ]

  Completed-newest :
      (request : RequestEnvelope) (body : ResponseBody) (h h' : List Effect)
      → Completed request body h h'
      → (newest h' ≡ some (xack_xdel entry))
        × (tally is_completion h' ≡ suc (tally is_completion h))
        × (tally is_invocation h' ≡ tally is_invocation h)
  Completed-newest request body h h' (silent e) = rw e (refl, refl, refl)
  Completed-newest request body h h' (replied c b f g e) = rw e (refl, refl, refl)

  errors-newest :
      (request : RequestEnvelope) (code message : String) (h : List Effect)
      → let h' = (publish_command_error_and_complete env options entry request code message h).1 in
        IsSent entry h h' × (tally is_invocation h' ≡ tally is_invocation h)
  unfolding publish_command_error_and_complete
  errors-newest request code message h =
      let (a, b, c) =
        Completed-newest request (error (plain_error code message)) h _
          (respond-Completed request (error (plain_error code message)) h) in
      ((a, b), c)

  module _ (handler : MessageHandlerDef) (request : RequestEnvelope) where
    tally-running :
        (p : Effect → Bool) (n : ℕ) (h : List Effect)
        → p (xclaim entry) ≡ false
        → tally p (running handler request n h)
          ≡ tally p (invocation handler (command_context handler request) request.payload ∷ h)
    tally-running p n h e = tally-repeated p n (xclaim entry) _ e

    Invoked-ends :
        (h : List Effect) (r : Result MicroserviceError (Unit {0}) × List Effect)
        → Invoked handler request h r
        → (IsSent entry h r.1 ⊎ IsLost entry h r)
          × (tally is_invocation r.1 ≡ suc (tally is_invocation h))
    Invoked-ends h r (lost k e f) = rw f (
      inr (e, refl, refl, tally-running is_completion k h refl),
      tally-running is_invocation k h refl,
    )
    Invoked-ends h r (finished n c) =
        let (a, b, d) = Completed-newest request _ _ _ c in
        (
          inl (a, b ∙ ap suc (tally-running is_completion n h refl)),
          d ∙ tally-running is_invocation n h refl,
        )

invoke_command-calls :
    (env : Environment) (options : RedisTransportOptions) (entry : Entry)
    (handler : MessageHandlerDef) (request : RequestEnvelope) (h : List Effect)
    → tally is_invocation (invoke_command env options entry handler request h).1
      ≡ suc (tally is_invocation h)
invoke_command-calls env options entry handler request h =
    (Invoked-ends env options entry handler request h _
      (invoke_command-Invoked env options entry handler request h)).1

process_command_entry-calls :
    (env : Environment) (options : RedisTransportOptions) (entry : Entry)
    (handler : MessageHandlerDef) (fields : List (String × Bytes)) (h : List Effect)
    → let calls =
        tally is_invocation (process_command_entry env options entry handler fields h).1 in
      (calls ≡ tally is_invocation h)
      ⊎ ((calls ≡ suc (tally is_invocation h))
          × ((request : RequestEnvelope) × IsAdmitted env options h fields request))
process_command_entry-calls env options entry handler fields h =
    elim (process_command_entry-Treatment env options entry handler fields h) [
      | dropped e ↦ inl (rw e refl)
      | answered request code message sound e ↦
          inl (rw e (errors-newest env options entry request code message h).1)
      | admitted request fine e ↦
          inr (rw e (invoke_command-calls env options entry handler request h), (request, fine))
    ]

-- The handler is called at most once for an entry, and it is called exactly when the entry holds a
-- request within the bounds that can be answered, of this protocol version, with its deadline ahead.
pub process_command_entry-invokes_iff :
    (env : Environment) (options : RedisTransportOptions) (entry : Entry)
    (handler : MessageHandlerDef) (fields : List (String × Bytes)) (h : List Effect)
    → let calls =
        tally is_invocation (process_command_entry env options entry handler fields h).1 in
      (calls ≤ suc (tally is_invocation h))
      × ((calls ≡ suc (tally is_invocation h))
          ↔ ((request : RequestEnvelope) × IsAdmitted env options h fields request))
process_command_entry-invokes_iff env options entry handler fields h =
    let back : (a : (request : RequestEnvelope) × IsAdmitted env options h fields request)
        → tally is_invocation (process_command_entry env options entry handler fields h).1
          ≡ suc (tally is_invocation h) =
      λ a.
        rw (admitted-eq env options entry handler fields h a.0 a.1)
          (invoke_command-calls env options entry handler a.0 h) in
    elim (process_command_entry-calls env options entry handler fields h) [
      | inl none_called ↦
          (omega (arith, none_called), (λ c. absurd (omega (arith, none_called, c)), back))
      | inr (called, request) ↦ (omega (arith, called), (λ c. request, back))
    ]
