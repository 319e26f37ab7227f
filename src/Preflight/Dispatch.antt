-- ===== src/Preflight/Dispatch.antt =====
-- crates/caelix-core/src/module.rs with crates/caelix-microservices/src: the message handlers of a graph
-- that `preflight` accepts, as the transports look them up by `nats_pattern_matches`.
use caelix.Prelude.{
  String, ◌≡◌, refl, true, false, ◌⊎◌, inl, inr, Option, none, some, List, [], ◌∷◌, All, split,
  arith, if◌then◌else◌, Bool-cases,
}
use caelix.Errors.{done}
use caelix.Metadata.{MessageHandlerDef}
use caelix.Container.{Container}
use caelix.Graph.{ModuleGraph, ProviderRegistration}
use caelix.Subjects.{valid_microservice_pattern}
use caelix.Subjects.Overlap.{valid_microservice_pattern-IsPattern}
use caelix.Owners.{is_command}
use caelix.Owners.Single.{message_handlers}
use caelix.Owners.Disjoint.{AllValid}
use caelix.Owners.OneOwner.{Disjoint, OneOwner}
use caelix.Preflight.{preflight}
use caelix.Preflight.Declarations.{preflight-OneOwner}
use caelix.Messages.Patterns.{nats_pattern_matches}
use caelix.Messages.Patterns.Covering.{nats_pattern_matches_iff}
use caelix.Redis.Broker.Events.{is_event, find_handler}

-- The handlers, of either kind, with a pattern that matches the subject.
unfoldable pub matching : List MessageHandlerDef → String → List MessageHandlerDef
matching [] subject = []
matching (h ∷ hs) subject =
    let rest = matching hs subject in
    if nats_pattern_matches h.pattern subject then h ∷ rest else rest

-- The subject has no handler, or one: event dispatch finds it if it is an event handler.
abbrev pub HasOneOwner : List MessageHandlerDef → String → Type 0
HasOneOwner hs subject =
    ((matching hs subject ≡ []) × (find_handler hs subject ≡ none))
    ⊎ ((h : MessageHandlerDef) × (matching hs subject ≡ h ∷ [])
        × (find_handler hs subject ≡ (if is_event h.kind then some h else none)))

Disjoint-matches :
    (h k : MessageHandlerDef) (subject : String)
    → valid_microservice_pattern h.pattern (is_command h.kind) ≡ true
    → valid_microservice_pattern k.pattern (is_command k.kind) ≡ true
    → Disjoint h.pattern k.pattern
    → nats_pattern_matches h.pattern subject ≡ true
    → nats_pattern_matches k.pattern subject ≡ false
Disjoint-matches h k subject vh vk d m =
    elim (Bool-cases (nats_pattern_matches k.pattern subject)) [
      | inl n ↦ absurd (
          d (split b'.' subject)
            ((nats_pattern_matches_iff h.pattern subject
                (valid_microservice_pattern-IsPattern h.pattern (is_command h.kind) vh)).0
              m)
            ((nats_pattern_matches_iff k.pattern subject
                (valid_microservice_pattern-IsPattern k.pattern (is_command k.kind) vk)).0
              n))
      | inr n ↦ n
    ]

none_match :
    (h : MessageHandlerDef) (hs : List MessageHandlerDef) (subject : String)
    → valid_microservice_pattern h.pattern (is_command h.kind) ≡ true
    → AllValid hs
    → All (λ k. Disjoint h.pattern k.pattern) hs
    → nats_pattern_matches h.pattern subject ≡ true
    → (matching hs subject ≡ []) × (find_handler hs subject ≡ none)
unfolding matching find_handler
none_match h [] subject vh v d m = (refl, refl)
none_match h (k ∷ hs) subject vh (vk, v) (dk, d) m =
    let (a, b) = none_match h hs subject vh v d m in
    let n : nats_pattern_matches k.pattern subject ≡ false =
      Disjoint-matches h k subject vh vk dk m in
    (rw (n, a), ground arith)

OneOwner-HasOneOwner :
    (hs : List MessageHandlerDef) (subject : String)
    → AllValid hs
    → OneOwner hs
    → HasOneOwner hs subject
unfolding matching find_handler
OneOwner-HasOneOwner [] subject v o = inl (refl, refl)
OneOwner-HasOneOwner (h ∷ hs) subject (vh, v) (d, o) =
    elim (Bool-cases (nats_pattern_matches h.pattern subject)) [
      | inl m ↦ let (a, b) = none_match h hs subject vh v d m in inr (h, rw (m, a), ground arith)
      | inr n ↦ elim (OneOwner-HasOneOwner hs subject v o) [
        | inl (a, b) ↦ inl (rw (n, a), ground arith)
        | inr (k, a, b) ↦ inr (k, rw (n, a), ground arith)
      ]
    ]

-- In an accepted graph a subject matches the pattern of no handler, and event dispatch finds none, or
-- of exactly one: event dispatch finds that handler if it is an event handler, and none if it is not.
pub preflight-HasOneOwner :
    (g : ModuleGraph) (c : Option Container) (order : List ProviderRegistration) (subject : String)
    → preflight g c ≡ done order
    → HasOneOwner (message_handlers g.nodes) subject
preflight-HasOneOwner g c order subject e =
    let (valid, one) = preflight-OneOwner g c order e in
    OneOwner-HasOneOwner (message_handlers g.nodes) subject valid one
