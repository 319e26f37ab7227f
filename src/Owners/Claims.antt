-- ===== src/Owners/Claims.antt =====
-- crates/caelix-core/src/module.rs: the checks of message subjects return.
use caelix.Prelude.{ℕ, ◌+◌, String, Option, none, some, List, [], ◌∷◌}
use caelix.Errors.{Outcome, ◌>>◌, Returns, Returns-bind, Returns-then, fail_if-Returns}
use caelix.Metadata.{MessageHandlerDef, MicroserviceDef}
use caelix.Graph.{ModuleNode, ModuleGraph}
use caelix.Owners.{
  Owned, Patterns, reject_shared, reject_duplicate, claim_pattern, claim_handlers, claim_services,
  claim_nodes, reject_overlaps, check_command_event, check_event_event, check_commands,
  check_events, check_owners,
}

reject_shared-Returns :
    (g : ModuleGraph) (p : String) (node : ModuleNode) (o : Option ℕ)
    → Returns (reject_shared g p node o)
reject_shared-Returns g p node none = tt
reject_shared-Returns g p node (some m) = tt

reject_duplicate-Returns :
    (g : ModuleGraph) (p : String) (node : ModuleNode) (o : Option ℕ)
    → Returns (reject_duplicate g p node o)
reject_duplicate-Returns g p node none = tt
reject_duplicate-Returns g p node (some m) = tt

module _ (g : ModuleGraph) where
  claim_pattern-Returns :
      (index : ℕ) (node : ModuleNode) (h : MessageHandlerDef) (ps : Patterns)
      → Returns (claim_pattern g index node h ps)
  unfolding claim_pattern
  claim_pattern-Returns index node h ps =
      search (Returns-then, fail_if-Returns, reject_shared-Returns, reject_duplicate-Returns)

  claim_handlers-Returns :
      (index : ℕ) (node : ModuleNode) (hs : List MessageHandlerDef) (ps : Patterns)
      → Returns (claim_handlers g index node hs ps)
  unfolding claim_handlers
  claim_handlers-Returns index node [] ps = tt
  claim_handlers-Returns index node (h ∷ hs) ps =
      Returns-bind (claim_pattern g index node h ps) (claim_handlers g index node hs)
        (claim_pattern-Returns index node h ps) (λ ps' e. claim_handlers-Returns index node hs ps')

  claim_services-Returns :
      (index : ℕ) (node : ModuleNode) (ss : List MicroserviceDef) (ps : Patterns)
      → Returns (claim_services g index node ss ps)
  unfolding claim_services
  claim_services-Returns index node [] ps = tt
  claim_services-Returns index node (s ∷ ss) ps =
      Returns-bind (claim_handlers g index node s.handlers ps) (claim_services g index node ss)
        (claim_handlers-Returns index node s.handlers ps)
        (λ ps' e. claim_services-Returns index node ss ps')

  claim_nodes-Returns :
      (index : ℕ) (nodes : List ModuleNode) (ps : Patterns) → Returns (claim_nodes g index nodes ps)
  unfolding claim_nodes
  claim_nodes-Returns index [] ps = tt
  claim_nodes-Returns index (node ∷ nodes) ps =
      Returns-bind (claim_services g index node node.metadata.microservices ps)
        (claim_nodes g (index + 1) nodes)
        (claim_services-Returns index node node.metadata.microservices ps)
        (λ ps' e. claim_nodes-Returns (index + 1) nodes ps')

reject_overlaps-Returns :
    (check : String → String → Outcome (Unit {0})) (p : String) (owned : Owned)
    → ((q : String) → Returns (check p q))
    → Returns (reject_overlaps check p owned)
unfolding reject_overlaps
reject_overlaps-Returns check p [] h = tt
reject_overlaps-Returns check p ((q, m) ∷ owned) h =
    Returns-bind (check p q) (λ _. reject_overlaps check p owned) (h q)
      (λ u e. reject_overlaps-Returns check p owned h)

check_commands-Returns : (commands events : Owned) → Returns (check_commands commands events)
unfolding check_commands
check_commands-Returns [] events = tt
check_commands-Returns ((p, m) ∷ commands) events =
    Returns-then (reject_overlaps check_command_event p events) (check_commands commands events)
      (reject_overlaps-Returns check_command_event p events (λ q. fail_if-Returns _ _))
      (check_commands-Returns commands events)

check_events-Returns : (events : Owned) → Returns (check_events events)
unfolding check_events
check_events-Returns [] = tt
check_events-Returns ((p, m) ∷ events) =
    Returns-then (reject_overlaps check_event_event p events) (check_events events)
      (reject_overlaps-Returns check_event_event p events (λ q. fail_if-Returns _ _))
      (check_events-Returns events)

pub check_owners-Returns : (g : ModuleGraph) → Returns (check_owners g)
unfolding check_owners
check_owners-Returns g =
    Returns-bind (claim_nodes g 0 g.nodes (record { commands = []; events = [] }))
      (λ ps. (do check_commands ps.commands ps.events; check_events ps.events))
      (claim_nodes-Returns g 0 g.nodes (record { commands = []; events = [] }))
      (λ ps e.
        Returns-then (check_commands ps.commands ps.events) (check_events ps.events)
          (check_commands-Returns ps.commands ps.events) (check_events-Returns ps.events))
