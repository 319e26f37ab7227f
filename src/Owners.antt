-- ===== src/Owners.antt =====
-- crates/caelix-core/src/module.rs: the part of `ModuleGraph::preflight` that gives each message
-- subject one owner. The source iterates over hash maps, whose order is not fixed, when it compares
-- the collected subjects; here it is the order of insertion, which only decides which of several
-- errors is reported.
pub mod Claims
pub mod Single
pub mod Disjoint
pub mod OneOwner
use caelix.Prelude.{
  ℕ, ◌+◌, String, Bool, true, false, not, Option, none, some, List, [], ◌∷◌, ◌++◌, str_eq,
  if◌then◌else◌,
}
use caelix.Errors.{
  invalid_subject, shared_subject, duplicate_subject, command_overlaps_event, event_overlap,
  Outcome, done, fail, startup_error, ◌>>=◌, ◌>>◌, fail_if,
}
use caelix.Metadata.{MessageHandlerKind, command, event, MessageHandlerDef, MicroserviceDef}
use caelix.Subjects.{valid_microservice_pattern, microservice_patterns_intersect}
use caelix.Graph.{ModuleNode, ModuleGraph, module_name}

-- A subject and the module that declares its handler.
abbrev pub Owned : Type 0
Owned = List (String × ℕ)

pub record Patterns : Type 0 where
  pub commands : Owned
  pub events : Owned

abbrev pub owner : Owned → String → Option ℕ
owner [] p = none
owner ((q, m) ∷ owned) p = if str_eq q p then some m else owner owned p

abbrev pub is_command : MessageHandlerKind → Bool
is_command command = true
is_command event = false

-- The handlers of the same kind, and those of the other.
abbrev pub same_kind : MessageHandlerKind → Patterns → Owned
same_kind command ps = ps.commands
same_kind event ps = ps.events

abbrev pub other_kind : MessageHandlerKind → Patterns → Owned
other_kind command ps = ps.events
other_kind event ps = ps.commands

abbrev pub insert_pattern : MessageHandlerKind → String → ℕ → Patterns → Patterns
insert_pattern command p m ps = record ps { commands = ps.commands ++ (p, m) ∷ [] }
insert_pattern event p m ps = record ps { events = ps.events ++ (p, m) ∷ [] }

abbrev pub reject_shared : ModuleGraph → String → ModuleNode → Option ℕ → Outcome (Unit {0})
reject_shared g p node none = done tt
reject_shared g p node (some m) =
    fail (startup_error (shared_subject p (module_name g m) node.type_name))

abbrev pub reject_duplicate : ModuleGraph → String → ModuleNode → Option ℕ → Outcome (Unit {0})
reject_duplicate g p node none = done tt
reject_duplicate g p node (some m) =
    fail (startup_error (duplicate_subject p (module_name g m) node.type_name))

pub claim_pattern : ModuleGraph → ℕ → ModuleNode → MessageHandlerDef → Patterns → Outcome Patterns
unfolding valid_microservice_pattern
claim_pattern g index node handler ps = do
  fail_if (not (valid_microservice_pattern handler.pattern (is_command handler.kind)))
      (invalid_subject handler.pattern node.type_name)
  reject_shared g handler.pattern node (owner (other_kind handler.kind ps) handler.pattern)
  reject_duplicate g handler.pattern node (owner (same_kind handler.kind ps) handler.pattern)
  done (insert_pattern handler.kind handler.pattern index ps)

pub claim_handlers :
    ModuleGraph → ℕ → ModuleNode → List MessageHandlerDef → Patterns → Outcome Patterns
unfolding claim_pattern
claim_handlers g index node [] ps = done ps
claim_handlers g index node (handler ∷ handlers) ps = do
  ps' ← claim_pattern g index node handler ps
  claim_handlers g index node handlers ps'

pub claim_services :
    ModuleGraph → ℕ → ModuleNode → List MicroserviceDef → Patterns → Outcome Patterns
unfolding claim_handlers
claim_services g index node [] ps = done ps
claim_services g index node (service ∷ services) ps = do
  ps' ← claim_handlers g index node service.handlers ps
  claim_services g index node services ps'

pub claim_nodes : ModuleGraph → ℕ → List ModuleNode → Patterns → Outcome Patterns
unfolding claim_services
claim_nodes g index [] ps = done ps
claim_nodes g index (node ∷ nodes) ps = do
  ps' ← claim_services g index node node.metadata.microservices ps
  claim_nodes g (index + 1) nodes ps'

pub reject_overlaps : (String → String → Outcome (Unit {0})) → String → Owned → Outcome (Unit {0})
reject_overlaps check p [] = done tt
reject_overlaps check p ((q, m) ∷ owned) = do check p q; reject_overlaps check p owned

abbrev pub check_command_event : String → String → Outcome (Unit {0})
check_command_event c e = fail_if (microservice_patterns_intersect c e) (command_overlaps_event c e)

abbrev pub check_event_event : String → String → Outcome (Unit {0})
check_event_event a b = fail_if (microservice_patterns_intersect a b) (event_overlap a b)

pub check_commands : Owned → Owned → Outcome (Unit {0})
unfolding reject_overlaps microservice_patterns_intersect
check_commands [] events = done tt
check_commands ((c, m) ∷ commands) events = do
  reject_overlaps check_command_event c events
  check_commands commands events

pub check_events : Owned → Outcome (Unit {0})
unfolding reject_overlaps microservice_patterns_intersect
check_events [] = done tt
check_events ((e, m) ∷ events) = do reject_overlaps check_event_event e events; check_events events

unfoldable pub check_owners : ModuleGraph → Outcome (Unit {0})
unfolding claim_nodes check_commands check_events
check_owners g = do
  ps ← claim_nodes g 0 g.nodes (record { commands = []; events = [] })
  check_commands ps.commands ps.events
  check_events ps.events
