-- ===== src/Owners/OneOwner.antt =====
-- crates/caelix-core/src/module.rs: the headline of the subject checks.
use caelix.Prelude.{
  String, ◌≡◌, sym, subst, ◌∙◌, ◌≢◌, inl, inr, true, false, List, [], ◌∷◌, ◌++◌, In, All,
  AllDistinct, split, split_injective,
}
use caelix.Errors.{
  command_overlaps_event, event_overlap, Outcome, done, ◌>>◌, >>=-eq-done, fail_if-eq-done,
}
use caelix.Metadata.{MessageHandlerKind, command, event, MessageHandlerDef}
use caelix.Subjects.{valid_microservice_pattern, microservice_patterns_intersect}
use caelix.Subjects.Matching.{Accepts, intersect_complete}
use caelix.Subjects.Overlap.{command_pattern_exact}
use caelix.Graph.{ModuleGraph}
use caelix.Owners.{
  Owned, Patterns, is_command, claim_nodes, reject_overlaps, check_command_event, check_event_event,
  check_commands, check_events, check_owners,
}
use caelix.Owners.Single.{message_handlers, Claims, claim_nodes-Claims}
use caelix.Owners.Disjoint.{
  subjects, one_command, one_event, commands_of, events_of, Claims-commands, Claims-events,
  AllValid, Claims-AllValid, Claims-Fresh,
}

abbrev Apart : String → String → Type 0
Apart p q = microservice_patterns_intersect p q ≡ false

abbrev AllApart : List String → Type 0
AllApart [] = Unit
AllApart (p ∷ ps) = All (Apart p) ps × AllApart ps

reject_overlaps-Apart :
    (check : String → String → Outcome (Unit {0})) (p : String) (owned : Owned)
    → ((q : String) (u : Unit {0}) → check p q ≡ done u → Apart p q)
    → (u : Unit {0}) → reject_overlaps check p owned ≡ done u
    → All (Apart p) (subjects owned)
unfolding reject_overlaps
reject_overlaps-Apart check p [] f v e = tt
reject_overlaps-Apart check p ((q, m) ∷ owned) f v e =
    let (u, e1, e2) = >>=-eq-done (check p q) (λ _. reject_overlaps check p owned) e in
    (f q u e1, reject_overlaps-Apart check p owned f v e2)

check_commands-Apart :
    (commands events : Owned) {u : Unit {0}}
    → check_commands commands events ≡ done u
    → All (λ c. All (Apart c) (subjects events)) (subjects commands)
unfolding check_commands
check_commands-Apart [] events e = tt
check_commands-Apart ((c, m) ∷ commands) events e =
    let (u, e1, e2) =
      >>=-eq-done (reject_overlaps check_command_event c events)
        (λ _. check_commands commands events) e in
    (
      reject_overlaps-Apart check_command_event c events
          (λ q v h.
            fail_if-eq-done (microservice_patterns_intersect c q) (command_overlaps_event c q) h)
          u e1,
      check_commands-Apart commands events e2,
    )

check_events-AllApart :
    (events : Owned) {u : Unit {0}} → check_events events ≡ done u → AllApart (subjects events)
unfolding check_events
check_events-AllApart [] e = tt
check_events-AllApart ((p, m) ∷ events) e =
    let (u, e1, e2) =
      >>=-eq-done (reject_overlaps check_event_event p events) (λ _. check_events events) e in
    (
      reject_overlaps-Apart check_event_event p events
          (λ q v h. fail_if-eq-done (microservice_patterns_intersect p q) (event_overlap p q) h) u
          e1,
      check_events-AllApart events e2,
    )

-- No subject is accepted by both patterns.
abbrev pub Disjoint : String → String → Type 0
Disjoint p q = (s : List String) → Accepts (split b'.' p) s → Accepts (split b'.' q) s → ⊥

-- Of any two handlers in the list, no subject is accepted by both.
abbrev pub OneOwner : List MessageHandlerDef → Type 0
OneOwner [] = Unit
OneOwner (h ∷ hs) = All (λ k. Disjoint h.pattern k.pattern) hs × OneOwner hs

Disjoint-of_Apart : (p q : String) → Apart p q → Disjoint p q
unfolding microservice_patterns_intersect
Disjoint-of_Apart p q apart s a b =
    cc (intersect_complete (split b'.' p) (split b'.' q) s a b, apart)

Disjoint-sym : (p q : String) → Disjoint p q → Disjoint q p
Disjoint-sym p q d s a b = d s b a

Disjoint-of_ne :
    (p q : String)
    → valid_microservice_pattern p true ≡ true
    → valid_microservice_pattern q true ≡ true
    → p ≢ q
    → Disjoint p q
Disjoint-of_ne p q vp vq ne s a b = ne (
    split_injective "." p q (command_pattern_exact p s vp a ∙ sym (command_pattern_exact q s vq b)))

-- A command against one later handler, of either kind, and the handlers behind it.
command_step :
    (p : String) (k : MessageHandlerKind) (q : String) (commands events : List String)
    → valid_microservice_pattern p true ≡ true
    → valid_microservice_pattern q (is_command k) ≡ true
    → (In p (one_command k q ++ commands) → ⊥)
    → All (Apart p) (one_event k q ++ events)
    → Disjoint p q × (In p commands → ⊥) × All (Apart p) events
command_step p command q commands events vp vq f a =
    (Disjoint-of_ne p q vp vq (λ e. f (inl e)), (λ i. f (inr i)), a)
command_step p event q commands events vp vq f (a, as_) = (Disjoint-of_Apart p q a, f, as_)

command_Disjoint :
    (p : String) (hs : List MessageHandlerDef)
    → valid_microservice_pattern p true ≡ true
    → AllValid hs
    → (In p (commands_of hs) → ⊥)
    → All (Apart p) (events_of hs)
    → All (λ k. Disjoint p k.pattern) hs
command_Disjoint p [] vp v f a = tt
command_Disjoint p (h ∷ hs) vp (vh, v) f a =
    let (d, f', a') = command_step p h.kind h.pattern (commands_of hs) (events_of hs) vp vh f a in
    (d, command_Disjoint p hs vp v f' a')

event_step :
    (p : String) (k : MessageHandlerKind) (q : String) (commands events : List String)
    → All (λ c. Apart c p) (one_command k q ++ commands)
    → All (Apart p) (one_event k q ++ events)
    → Disjoint p q × All (λ c. Apart c p) commands × All (Apart p) events
event_step p command q commands events (c, cs) a =
    (Disjoint-sym q p (Disjoint-of_Apart q p c), cs, a)
event_step p event q commands events cs (a, as_) = (Disjoint-of_Apart p q a, cs, as_)

event_Disjoint :
    (p : String) (hs : List MessageHandlerDef)
    → All (λ c. Apart c p) (commands_of hs)
    → All (Apart p) (events_of hs)
    → All (λ k. Disjoint p k.pattern) hs
event_Disjoint p [] c a = tt
event_Disjoint p (h ∷ hs) c a =
    let (d, c', a') = event_step p h.kind h.pattern (commands_of hs) (events_of hs) c a in
    (d, event_Disjoint p hs c' a')

All-heads :
    (cs : List String) (p : String) (es : List String)
    → All (λ c. All (Apart c) (p ∷ es)) cs
    → All (λ c. Apart c p) cs × All (λ c. All (Apart c) es) cs
All-heads [] p es h = (tt, tt)
All-heads (c ∷ cs) p es ((a, as_), h) = let (x, y) = All-heads cs p es h in ((a, x), (as_, y))

Kept : List MessageHandlerDef → Type 0
Kept hs =
    AllDistinct (commands_of hs)
    × All (λ c. All (Apart c) (events_of hs)) (commands_of hs)
    × AllApart (events_of hs)

-- The first handler against the rest, and what is left for the rest.
first_Disjoint :
    (k : MessageHandlerKind) (p : String) (hs : List MessageHandlerDef)
    → valid_microservice_pattern p (is_command k) ≡ true
    → AllValid hs
    → AllDistinct (one_command k p ++ commands_of hs)
    → All (λ c. All (Apart c) (one_event k p ++ events_of hs)) (one_command k p ++ commands_of hs)
    → AllApart (one_event k p ++ events_of hs)
    → All (λ k. Disjoint p k.pattern) hs × Kept hs
unfolding Kept
first_Disjoint command p hs vp v (f, d) (a, cross) apart =
    (command_Disjoint p hs vp v f a, (d, cross, apart))
first_Disjoint event p hs vp v d cross (a, apart) =
    let (heads, rest) = All-heads (commands_of hs) p (events_of hs) cross in
    (event_Disjoint p hs heads a, (d, rest, apart))

OneOwner-of_Kept : (hs : List MessageHandlerDef) → AllValid hs → Kept hs → OneOwner hs
unfolding Kept
OneOwner-of_Kept [] v k = tt
OneOwner-of_Kept (h ∷ hs) (vh, v) (d, cross, apart) =
    let (here, kept) = first_Disjoint h.kind h.pattern hs vh v d cross apart in
    (here, OneOwner-of_Kept hs v kept)

pub check_owners-OneOwner :
    (g : ModuleGraph)
    → check_owners g ≡ done tt
    → AllValid (message_handlers g.nodes) × OneOwner (message_handlers g.nodes)
unfolding check_owners Kept
check_owners-OneOwner g e =
    let none_yet : Patterns = record { commands = []; events = [] } in
    let hs = message_handlers g.nodes in
    let (ps, e1, r1) =
      >>=-eq-done (claim_nodes g 0 g.nodes none_yet)
        (λ ps. (do check_commands ps.commands ps.events; check_events ps.events)) e in
    let (u, e2, e3) =
      >>=-eq-done (check_commands ps.commands ps.events) (λ _. check_events ps.events) r1 in
    let claims : Claims none_yet hs ps = claim_nodes-Claims g 0 g.nodes none_yet ps e1 in
    let cs : subjects ps.commands ≡ commands_of hs = Claims-commands claims in
    let es : subjects ps.events ≡ events_of hs = Claims-events claims in
    let cross =
      subst (λ l. All (λ c. All (Apart c) (subjects ps.events)) l) cs
        (check_commands-Apart ps.commands ps.events e2) in
    (
      Claims-AllValid claims,
      OneOwner-of_Kept hs (Claims-AllValid claims) (
        (Claims-Fresh claims).1,
        subst (λ l. All (λ c. All (Apart c) l) (commands_of hs)) es cross,
        subst AllApart es (check_events-AllApart ps.events e3),
      ),
    )
