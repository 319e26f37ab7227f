-- ===== src/Redis/Broker/Commands/Replies.antt =====
-- crates/caelix-microservices/src/redis_transport.rs: the replies to commands.
use caelix.Prelude.{
  ℕ, zero, suc, ◌≤◌, String, ◌≡◌, refl, sym, subst, ◌⊎◌, inl, inr, some, List, ◌∷◌, In, length,
}
use caelix.Metadata.{MessageHandlerDef}
use caelix.Messages.{Bytes, RequestEnvelope, ResponseBody, response, bytes}
use caelix.Messages.Bounds.{IsResponse, encode_response-IsResponse, encode_response-fits}
use caelix.Messages.Effects.{Result, ok}
use caelix.Redis.{RedisTransportOptions}
use caelix.Redis.Broker.{Entry, Effect, xack_xdel, xclaim, publish, Environment}
use caelix.Redis.Broker.Tallies.{repeated, Accepts, times-accepted}
use caelix.Redis.Broker.Commands.{
  publish_command_response_and_complete, publish_command_error_and_complete, invoke_command,
  process_command_entry,
}
use caelix.Redis.Broker.Commands.Admission.{
  IsAnswerable, IsAdmitted, dropped, answered, admitted, process_command_entry-Treatment,
  admitted-eq,
}
use caelix.Redis.Broker.Commands.Completion.{
  Completed, silent, replied, respond-Completed, Invoked, lost, finished, invoke_command-Invoked,
  running, handled,
}

-- A reply to the request that an entry holds: on the channel that it names, with its correlation id,
-- within the bound.
abbrev pub IsReply :
    Environment → RedisTransportOptions → List (String × Bytes) → String → Bytes → Type 0
IsReply env options fields channel b =
    (request : RequestEnvelope) × IsAnswerable env options fields request
    × (request.reply_channel ≡ some channel)
    × IsResponse env.response_bytes request.correlation_id options.max_response_bytes b

In-repeated :
    (c : String) (b : Bytes) (entry : Entry) (n : ℕ) (h : List Effect)
    → In (publish c b) (repeated n (xclaim entry) h)
    → In (publish c b) h
In-repeated c b entry zero h i = i
In-repeated c b entry (suc n) h i = elim (In-repeated c b entry n (xclaim entry ∷ h) i) [
  | inl e ↦ cc e
  | inr j ↦ j
]

module _ (env : Environment) (options : RedisTransportOptions) (entry : Entry)
    (fields : List (String × Bytes)) (c : String) (b : Bytes) where
  Completed-IsReply :
      (request : RequestEnvelope) (body : ResponseBody) (h h' : List Effect)
      → IsAnswerable env options fields request
      → Completed env options entry request body h h'
      → In (publish c b) h'
      → In (publish c b) h ⊎ IsReply env options fields c b
  Completed-IsReply request body h h' sound (silent e) i = elim (subst (In (publish c b)) e i) [
    | inl f ↦ cc f
    | inr j ↦ inl j
  ]
  Completed-IsReply request body h h' sound (replied channel d f enc e) i =
      elim (subst (In (publish c b)) e i) [
        | inl g ↦ cc g
        | inr (inl g) ↦
            let here : c ≡ channel = cc g in
            let these : b ≡ d = cc g in
            let good =
              encode_response-IsResponse env.response_bytes request.correlation_id body
                options.max_response_bytes d enc in
            inr (
              request,
              sound,
              subst (λ x. request.reply_channel ≡ some x) (sym here) f,
              subst
                  (IsResponse env.response_bytes request.correlation_id options.max_response_bytes)
                  (sym these) good,
            )
        | inr (inr j) ↦ inl j
      ]

  In-running :
      (handler : MessageHandlerDef) (request : RequestEnvelope) (n : ℕ) (h : List Effect)
      → In (publish c b) (running env options entry handler request n h)
      → In (publish c b) h
  In-running handler request n h i = elim (In-repeated c b entry n _ i) [ inl e ↦ cc e | inr j ↦ j ]

  from_running :
      (handler : MessageHandlerDef) (request : RequestEnvelope) (n : ℕ) (h : List Effect)
      → In (publish c b) (running env options entry handler request n h)
        ⊎ IsReply env options fields c b
      → In (publish c b) h ⊎ IsReply env options fields c b
  from_running handler request n h (inl i) = inl (In-running handler request n h i)
  from_running handler request n h (inr good) = inr good

  Invoked-IsReply :
      (handler : MessageHandlerDef) (request : RequestEnvelope) (h : List Effect)
      (r : Result _ (Unit {0}) × List Effect)
      → IsAnswerable env options fields request
      → Invoked env options entry handler request h r
      → In (publish c b) r.1
      → In (publish c b) h ⊎ IsReply env options fields c b
  Invoked-IsReply handler request h r sound (lost k e f) i =
      elim (subst (λ x. In (publish c b) x.1) f i) [
        | inl g ↦ cc g
        | inr j ↦ inl (In-running handler request k h j)
      ]
  Invoked-IsReply handler request h r sound (finished n done) i = from_running handler request n h (
      Completed-IsReply request (handled env options entry handler request n h)
        (running env options entry handler request n h) r.1 sound done i)

-- Whatever is published while an entry is processed is a reply to the request that the entry holds:
-- it goes to the channel that the request names, carries the request's correlation id, and is within
-- the configured bound.
pub process_command_entry-IsReply :
    (env : Environment) (options : RedisTransportOptions) (entry : Entry)
    (handler : MessageHandlerDef) (fields : List (String × Bytes)) (h : List Effect)
    (channel : String) (b : Bytes)
    → In (publish channel b) (process_command_entry env options entry handler fields h).1
    → In (publish channel b) h ⊎ IsReply env options fields channel b
unfolding publish_command_error_and_complete
process_command_entry-IsReply env options entry handler fields h c b i =
    elim (process_command_entry-Treatment env options entry handler fields h) [
      | dropped e ↦ elim (subst (λ x. In (publish c b) x.1) e i) [ inl f ↦ cc f | inr j ↦ inl j ]
      | answered request code message sound e ↦
          Completed-IsReply env options entry fields c b request _ h _ sound
            (respond-Completed env options entry request _ h)
            (subst (λ x. In (publish c b) x.1) e i)
      | admitted request fine e ↦
          Invoked-IsReply env options entry fields c b handler request h _ fine.sound
            (invoke_command-Invoked env options entry handler request h)
            (subst (λ x. In (publish c b) x.1) e i)
    ]

-- With a broker that refuses nothing, an admitted command runs its handler with heartbeats, then the
-- handler's result goes to the reply channel if it fits, then the entry is completed, and the
-- processing succeeds.
pub process_command_entry-replies :
    (env : Environment) (options : RedisTransportOptions) (entry : Entry)
    (handler : MessageHandlerDef) (fields : List (String × Bytes)) (h : List Effect)
    (request : RequestEnvelope) (channel : String) (b : Bytes)
    → Accepts env
    → IsAdmitted env options h fields request
    → request.reply_channel ≡ some channel
    → let n = env.ticks (running env options entry handler request 0 h) in
      env.response_bytes
          (response request.correlation_id (handled env options entry handler request n h))
        ≡ bytes b
      → length b ≤ options.max_response_bytes
      → process_command_entry env options entry handler fields h ≡ (
        ok tt,
        xack_xdel entry ∷ publish channel b ∷ running env options entry handler request n h,
      )
unfolding invoke_command publish_command_response_and_complete
process_command_entry-replies env options entry handler fields h request channel b up adm ch enc
      fits =
    let h' = running env options entry handler request 0 h in
    let n = env.ticks h' in
    let sent =
      encode_response-fits env.response_bytes request.correlation_id
        (handled env options entry handler request n h) options.max_response_bytes b enc fits in
    let after = running env options entry handler request n h in
    rw
      (
        admitted-eq env options entry handler fields h request adm,
        times-accepted env entry n h' up,
        sent,
        ch,
        up after (publish channel b),
        up (publish channel b ∷ after) (xack_xdel entry),
      )
      refl
