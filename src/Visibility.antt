-- ===== src/Visibility.antt =====
-- crates/caelix-core/src/module.rs: the part of `ModuleGraph::preflight` that decides which provider
-- is registered, exported and visible where.
-- The container is the `Option` of the source. A map that the source only looks up in is a
-- function; a set is the list of what was inserted.
pub mod Types
pub mod Sets
pub mod Exports
pub mod Reexports
pub mod Reference
use caelix.Prelude.{
  ℕ, zero, suc, ◌+◌, String, Bool, true, false, not, ◌&&◌, ◌||◌, Option, none, some, List, [], ◌∷◌,
  ◌++◌, map, ◌==◌, str_eq, if◌then◌else◌, length, get_elem?, set,
}
use caelix.Errors.{
  Message, duplicate_provider, cannot_export, not_visible, missing_dependency,
  missing_handler_provider, no_event_bus, invalid_subject, shared_subject, duplicate_subject,
  command_overlaps_event, event_overlap, provider_cycle, Outcome, done, fail, panicked, out_of_fuel,
  startup_error, ◌>>=◌, ◌>>◌, fail_if, at_index,
}
use caelix.Container.{
  ProviderDef, ProviderDependency, Container, update, contains, has, logger_type, event_bus_type,
  pending_override, has_pending_override, was_overridden, contains_type_id,
}
use caelix.Metadata.{
  MessageHandlerKind, command, event, MessageHandlerDef, MicroserviceDef, EventHandlerDef,
}
use caelix.Subjects.{valid_microservice_pattern, microservice_patterns_intersect}
use caelix.Graph.{
  ModuleNode, ModuleGraph, ProviderRegistration, definitions, def, local_types, module_name,
}

abbrev pub TypeMap : Type 0
TypeMap = ℕ → Option ProviderRegistration

abbrev pub is_overridden : Option Container → ℕ → Bool
is_overridden none t = false
is_overridden (some c) t = has_pending_override c t || was_overridden c t

abbrev pub present : Option Container → ℕ → Bool
present none t = false
present (some c) t = contains_type_id c t

abbrev pub or_declared : Option ProviderDef → ProviderDef → ProviderDef
or_declared none d = d
or_declared (some o) d = o

-- The override that will take the place of a declared provider, if one is pending.
abbrev pub effective : Option Container → ProviderDef → ProviderDef
effective none d = d
effective (some c) d = or_declared (pending_override c d.type_id) d

-- A second registration of a type is an error, but for an overridden type.
abbrev pub check_duplicate :
    ModuleGraph
    → Option Container
    → ProviderDef
    → ProviderRegistration
    → Option ProviderRegistration
    → Outcome (Unit {0})
check_duplicate g c d r none = done tt
check_duplicate g c d r (some existing) = fail_if (not (is_overridden c d.type_id)) (
    duplicate_provider d.type_name (module_name g existing.module_index)
      (module_name g r.module_index))

unfoldable pub collect_types :
    ModuleGraph → Option Container → TypeMap → List ProviderRegistration → Outcome TypeMap
collect_types g c by_type [] = done by_type
collect_types g c by_type (r ∷ rs) = do
  d ← at_index (def g r)
  check_duplicate g c d r (by_type d.type_id)
  collect_types g c (update by_type d.type_id r) rs

-- `sets[index].contains(&t)`: an index that is out of bounds panics.
abbrev pub contains_at : List (List ℕ) → ℕ → ℕ → Outcome Bool
contains_at sets index t = do s ← at_index (get_elem? sets index); done (contains s t)

-- `||`: the right side runs only behind a false left side.
abbrev pub or_then : Outcome Bool → Outcome Bool → Outcome Bool
or_then (done true) m = done true
or_then (done false) m = m
or_then (fail e) m = fail e
or_then panicked m = panicked
or_then out_of_fuel m = out_of_fuel

-- `children.iter().any(|&child| sets[child].contains(&t))`
abbrev pub any_contains : List (List ℕ) → List ℕ → ℕ → Outcome Bool
any_contains sets [] t = done false
any_contains sets (child ∷ children) t =
    or_then (contains_at sets child t) (any_contains sets children t)

-- `sets[index].insert(t)`
abbrev pub insert_at : List (List ℕ) → ℕ → ℕ → Outcome (List (List ℕ))
insert_at sets index t = do s ← at_index (get_elem? sets index); done (set sets index (t ∷ s))

unfoldable pub check_exports :
    List (List ℕ)
    → ℕ
    → ModuleNode
    → List ProviderDependency
    → List (List ℕ)
    → Outcome (List (List ℕ))
check_exports locals index node [] exports = done exports
check_exports locals index node (e ∷ es) exports = do
  imported ← any_contains exports node.imports e.type_id
  local ← contains_at locals index e.type_id
  fail_if (not local && not imported) (cannot_export node.type_name e.type_name)
  exports' ← insert_at exports index e.type_id
  check_exports locals index node es exports'

unfoldable pub collect_exports :
    List (List ℕ) → ℕ → List ModuleNode → List (List ℕ) → Outcome (List (List ℕ))
unfolding check_exports
collect_exports locals index [] exports = done exports
collect_exports locals index (node ∷ nodes) exports = do
  exports' ← check_exports locals index node node.metadata.exports exports
  collect_exports locals (index + 1) nodes exports'

unfoldable pub global_exports : List (List ℕ) → ℕ → List ModuleNode → Outcome (List ℕ)
global_exports exports index [] = done []
global_exports exports index (node ∷ nodes) =
    let rest = global_exports exports (index + 1) nodes in
    if node.metadata.global
    then (at_index (get_elem? exports index) >>= λ s. rest >>= λ r. done (s ++ r))
    else rest

-- The sets that visibility is decided by.
pub record Scopes : Type 0 where
  pub locals : List (List ℕ)
  pub exports : List (List ℕ)
  pub globals : List ℕ

-- `self.nodes[module].imports`
abbrev pub any_import : ModuleGraph → List (List ℕ) → ℕ → ℕ → Outcome Bool
any_import g exports index t = do
  node ← at_index (get_elem? g.nodes index)
  any_contains exports node.imports t

unfoldable pub visible : ModuleGraph → Scopes → ℕ → ℕ → Outcome Bool
visible g s index t =
    or_then (contains_at s.locals index t)
      (or_then (done (contains s.globals t)) (any_import g s.exports index t))

unfoldable pub check_dependency :
    ModuleGraph
    → Option Container
    → TypeMap
    → Scopes
    → ProviderRegistration
    → ProviderDef
    → ProviderDependency
    → Outcome (Unit {0})
check_dependency g c by_type s r eff dep =
    if dep.type_id == logger_type
    then done tt
    else if has (by_type dep.type_id)
    then (visible g s r.module_index dep.type_id >>= λ seen.
        fail_if (not seen) (not_visible eff.type_name dep.type_name (module_name g r.module_index)))
    else fail_if (not (present c dep.type_id)) (missing_dependency eff.type_name dep.type_name)

unfoldable pub each {ℓ} : {A : Type ℓ} → (A → Outcome (Unit {0})) → List A → Outcome (Unit {0})
each check [] = done tt
each check (x ∷ xs) = do check x; each check xs

unfoldable pub check_registration :
    ModuleGraph → Option Container → TypeMap → Scopes → ProviderRegistration → Outcome (Unit {0})
unfolding each check_dependency
check_registration g c by_type s r = do
  production ← at_index (def g r)
  let eff = effective c production
  each (check_dependency g c by_type s r eff) eff.dependencies

unfoldable pub check_event_handler :
    ModuleGraph → Scopes → ℕ → ModuleNode → EventHandlerDef → Outcome (Unit {0})
check_event_handler g s index node handler = do
  local ← contains_at s.locals index handler.type_id
  fail_if (not local) (missing_handler_provider handler.type_name)
  seen ← visible g s index event_bus_type
  fail_if (not seen) (no_event_bus node.type_name)

unfoldable pub check_event_handlers :
    ModuleGraph → Scopes → ℕ → List ModuleNode → Outcome (Unit {0})
unfolding each check_event_handler
check_event_handlers g s index [] = done tt
check_event_handlers g s index (node ∷ nodes) = do
  each (check_event_handler g s index node) node.metadata.event_handlers
  check_event_handlers g s (index + 1) nodes
