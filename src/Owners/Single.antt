-- ===== src/Owners/Single.antt =====
-- crates/caelix-core/src/module.rs: a subject has one owner among the message handlers of a graph
-- that `preflight` accepts. `message_handlers` is what `collect_module_message_handlers` returns.
use caelix.Prelude.{
  ℕ, ◌+◌, String, ◌≡◌, refl, subst, Bool, true, false, not, Option, none, some, List, [], ◌∷◌, ◌++◌,
  arith,
}
use caelix.Errors.{invalid_subject, Outcome, done, ◌>>◌, fail_if, >>=-eq-done, fail_if-eq-done}
use caelix.Metadata.{MessageHandlerDef, MicroserviceDef}
use caelix.Subjects.{valid_microservice_pattern}
use caelix.Graph.{ModuleNode, ModuleGraph}
use caelix.Owners.{
  Patterns, owner, is_command, same_kind, other_kind, insert_pattern, reject_shared,
  reject_duplicate, claim_pattern, claim_handlers, claim_services, claim_nodes,
}

pub service_handlers : List MicroserviceDef → List MessageHandlerDef
service_handlers [] = []
service_handlers (s ∷ ss) = s.handlers ++ service_handlers ss

pub message_handlers : List ModuleNode → List MessageHandlerDef
unfolding service_handlers
message_handlers [] = []
message_handlers (node ∷ nodes) =
    service_handlers node.metadata.microservices ++ message_handlers nodes

-- The claims of a list of handlers, as they succeed one after another.
pub data Claims : Patterns → List MessageHandlerDef → Patterns → Type 0 where
  none_left : {ps : Patterns} → Claims ps [] ps
  claim :
      {ps ps' : Patterns} {h : MessageHandlerDef} {hs : List MessageHandlerDef} (m : ℕ)
      → valid_microservice_pattern h.pattern (is_command h.kind) ≡ true
      → owner (same_kind h.kind ps) h.pattern ≡ none
      → Claims (insert_pattern h.kind h.pattern m ps) hs ps'
      → Claims ps (h ∷ hs) ps'

Claims-append :
    {ps : Patterns} {hs : List MessageHandlerDef} {qs rs : Patterns} {gs : List MessageHandlerDef}
    → Claims ps hs qs
    → Claims qs gs rs
    → Claims ps (hs ++ gs) rs
Claims-append none_left d = d
Claims-append (claim m v o c) d = claim m v o (Claims-append c d)

module _ (g : ModuleGraph) where
  not-eq-false : (a : Bool) → not a ≡ false → a ≡ true
  not-eq-false a h = ground arith

  reject_duplicate-none :
      (p : String) (node : ModuleNode) (o : Option ℕ) {u : Unit {0}}
      → reject_duplicate g p node o ≡ done u
      → o ≡ none
  reject_duplicate-none p node none e = refl
  reject_duplicate-none p node (some m) e = cc

  claim_pattern-Claims :
      (index : ℕ) (node : ModuleNode) (h : MessageHandlerDef) (ps ps' : Patterns)
      → claim_pattern g index node h ps ≡ done ps'
      → Claims ps (h ∷ []) ps'
  unfolding claim_pattern
  claim_pattern-Claims index node h ps ps' e =
      let valid = valid_microservice_pattern h.pattern (is_command h.kind) in
      let shared = reject_shared g h.pattern node (owner (other_kind h.kind ps) h.pattern) in
      let twice = reject_duplicate g h.pattern node (owner (same_kind h.kind ps) h.pattern) in
      let next : Outcome Patterns = done (insert_pattern h.kind h.pattern index ps) in
      let (u1, e1, r1) =
        >>=-eq-done (fail_if (not valid) (invalid_subject h.pattern node.type_name))
          (λ _. (do shared; twice; next)) e in
      let (u2, e2, r2) = >>=-eq-done shared (λ _. (do twice; next)) r1 in
      let (u3, e3, r3) = >>=-eq-done twice (λ _. next) r2 in
      subst (Claims ps (h ∷ [])) (cc r3) (
        claim index
          (not-eq-false valid
            (fail_if-eq-done (not valid) (invalid_subject h.pattern node.type_name) e1))
          (reject_duplicate-none h.pattern node (owner (same_kind h.kind ps) h.pattern) e3)
          none_left)

  claim_handlers-Claims :
      (index : ℕ) (node : ModuleNode) (hs : List MessageHandlerDef) (ps ps' : Patterns)
      → claim_handlers g index node hs ps ≡ done ps'
      → Claims ps hs ps'
  unfolding claim_handlers
  claim_handlers-Claims index node [] ps ps' e = subst (Claims ps []) (cc e) none_left
  claim_handlers-Claims index node (h ∷ hs) ps ps' e =
      let (p1, e1, r1) =
        >>=-eq-done (claim_pattern g index node h ps) (claim_handlers g index node hs) e in
      Claims-append (claim_pattern-Claims index node h ps p1 e1)
        (claim_handlers-Claims index node hs p1 ps' r1)

  claim_services-Claims :
      (index : ℕ) (node : ModuleNode) (ss : List MicroserviceDef) (ps ps' : Patterns)
      → claim_services g index node ss ps ≡ done ps'
      → Claims ps (service_handlers ss) ps'
  unfolding claim_services service_handlers
  claim_services-Claims index node [] ps ps' e = subst (Claims ps []) (cc e) none_left
  claim_services-Claims index node (s ∷ ss) ps ps' e =
      let (p1, e1, r1) =
        >>=-eq-done (claim_handlers g index node s.handlers ps) (claim_services g index node ss)
          e in
      Claims-append (claim_handlers-Claims index node s.handlers ps p1 e1)
        (claim_services-Claims index node ss p1 ps' r1)

  pub claim_nodes-Claims :
      (index : ℕ) (nodes : List ModuleNode) (ps ps' : Patterns)
      → claim_nodes g index nodes ps ≡ done ps'
      → Claims ps (message_handlers nodes) ps'
  unfolding claim_nodes message_handlers
  claim_nodes-Claims index [] ps ps' e = subst (Claims ps []) (cc e) none_left
  claim_nodes-Claims index (node ∷ nodes) ps ps' e =
      let (p1, e1, r1) =
        >>=-eq-done (claim_services g index node node.metadata.microservices ps)
          (claim_nodes g (index + 1) nodes) e in
      Claims-append (claim_services-Claims index node node.metadata.microservices ps p1 e1)
        (claim_nodes-Claims (index + 1) nodes p1 ps' r1)
