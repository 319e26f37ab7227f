-- ===== src/Owners/Disjoint.antt =====
-- crates/caelix-core/src/module.rs: no subject is accepted by two of the message handlers of a graph
-- that `preflight` accepts.
use caelix.Prelude.{
  ℕ, String, ◌≡◌, sym, subst, ◌∙◌, inl, inr, true, none, List, [], ◌∷◌, ◌++◌, map, append-nil,
  append_assoc, arith, In, All, AllDistinct, In-append_left, In-append_right, str_eq_iff,
}
use mathlib.Core.List.{map-append}
use caelix.Metadata.{MessageHandlerKind, command, event, MessageHandlerDef}
use caelix.Subjects.{valid_microservice_pattern}
use caelix.Owners.{Owned, Patterns, owner, is_command, same_kind, insert_pattern}
use caelix.Owners.Single.{Claims, none_left, claim}

abbrev pub subject : String × ℕ → String
subject e = e.0

abbrev pub subjects : Owned → List String
subjects = map subject

abbrev pub one_command : MessageHandlerKind → String → List String
one_command command p = p ∷ []
one_command event p = []

abbrev pub one_event : MessageHandlerKind → String → List String
one_event command p = []
one_event event p = p ∷ []

abbrev pub commands_of : List MessageHandlerDef → List String
commands_of [] = []
commands_of (h ∷ hs) = one_command h.kind h.pattern ++ commands_of hs

abbrev pub events_of : List MessageHandlerDef → List String
events_of [] = []
events_of (h ∷ hs) = one_event h.kind h.pattern ++ events_of hs

commands-insert_pattern :
    (k : MessageHandlerKind) (p : String) (m : ℕ) (ps : Patterns)
    → subjects (insert_pattern k p m ps).commands ≡ subjects ps.commands ++ one_command k p
commands-insert_pattern command p m ps = map-append subject ps.commands ((p, m) ∷ [])
commands-insert_pattern event p m ps = sym (append-nil (subjects ps.commands))

events-insert_pattern :
    (k : MessageHandlerKind) (p : String) (m : ℕ) (ps : Patterns)
    → subjects (insert_pattern k p m ps).events ≡ subjects ps.events ++ one_event k p
events-insert_pattern command p m ps = sym (append-nil (subjects ps.events))
events-insert_pattern event p m ps = map-append subject ps.events ((p, m) ∷ [])

pub Claims-commands :
    {ps : Patterns} {hs : List MessageHandlerDef} {ps' : Patterns}
    → Claims ps hs ps'
    → subjects ps'.commands ≡ subjects ps.commands ++ commands_of hs
Claims-commands {ps} none_left = sym (append-nil (subjects ps.commands))
Claims-commands {ps} (claim {h = h} {hs = hs} m v o c) =
    Claims-commands c
    ∙ rw (commands-insert_pattern h.kind h.pattern m ps)
        (append_assoc (subjects ps.commands) (one_command h.kind h.pattern) (commands_of hs))

pub Claims-events :
    {ps : Patterns} {hs : List MessageHandlerDef} {ps' : Patterns}
    → Claims ps hs ps'
    → subjects ps'.events ≡ subjects ps.events ++ events_of hs
Claims-events {ps} none_left = sym (append-nil (subjects ps.events))
Claims-events {ps} (claim {h = h} {hs = hs} m v o c) =
    Claims-events c
    ∙ rw (events-insert_pattern h.kind h.pattern m ps)
        (append_assoc (subjects ps.events) (one_event h.kind h.pattern) (events_of hs))

abbrev pub AllValid : List MessageHandlerDef → Type 0
AllValid hs = All (λ h. valid_microservice_pattern h.pattern (is_command h.kind) ≡ true) hs

pub Claims-AllValid :
    {ps : Patterns} {hs : List MessageHandlerDef} {ps' : Patterns} → Claims ps hs ps' → AllValid hs
Claims-AllValid none_left = tt
Claims-AllValid (claim m v o c) = (v, Claims-AllValid c)

owner-none : (owned : Owned) (p : String) → owner owned p ≡ none → In p (subjects owned) → ⊥
owner-none [] p e i = i
owner-none ((q, m) ∷ owned) p e (inl same) = ground (arith, str_eq_iff q p)
owner-none ((q, m) ∷ owned) p e (inr i) = owner-none owned p (ground arith) i

-- No command subject of the list is among `taken`, and none stands twice.
abbrev pub Fresh : List String → List String → Type 0
Fresh taken ps = All (λ p. In p taken → ⊥) ps × AllDistinct ps

Fresh-narrow :
    (taken more ps : List String)
    → All (λ p. In p (taken ++ more) → ⊥) ps
    → All (λ p. In p taken → ⊥) ps
Fresh-narrow taken more [] h = tt
Fresh-narrow taken more (p ∷ ps) (h, hs) =
    ((λ i. h (In-append_left p taken more i)), Fresh-narrow taken more ps hs)

Fresh-not-In :
    (taken : List String) (p : String) (ps : List String)
    → All (λ q. In q (taken ++ p ∷ []) → ⊥) ps
    → In p ps
    → ⊥
Fresh-not-In taken p (q ∷ ps) (h, hs) (inl e) = h (In-append_right q taken (p ∷ []) (inl (sym e)))
Fresh-not-In taken p (q ∷ ps) (h, hs) (inr i) = Fresh-not-In taken p ps hs i
Fresh-not-In taken p [] h i = i

Fresh-claim :
    (k : MessageHandlerKind) (p : String) (ps : Patterns) (rest : List String)
    → owner (same_kind k ps) p ≡ none
    → Fresh (subjects ps.commands ++ one_command k p) rest
    → Fresh (subjects ps.commands) (one_command k p ++ rest)
Fresh-claim command p ps rest o (h, d) = (
  (owner-none ps.commands p o, Fresh-narrow (subjects ps.commands) (p ∷ []) rest h),
  (Fresh-not-In (subjects ps.commands) p rest h, d),
)
Fresh-claim event p ps rest o (h, d) = (Fresh-narrow (subjects ps.commands) [] rest h, d)

pub Claims-Fresh :
    {ps : Patterns} {hs : List MessageHandlerDef} {ps' : Patterns}
    → Claims ps hs ps'
    → Fresh (subjects ps.commands) (commands_of hs)
Claims-Fresh none_left = (tt, tt)
Claims-Fresh {ps} (claim {h = h} {hs = hs} m v o c) =
    Fresh-claim h.kind h.pattern ps (commands_of hs) o (
      subst (λ taken. Fresh taken (commands_of hs)) (commands-insert_pattern h.kind h.pattern m ps)
        (Claims-Fresh c))
