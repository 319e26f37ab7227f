-- ===== src/Preflight.antt =====
-- crates/caelix-core/src/module.rs: `ModuleGraph::preflight`, which validates a graph and returns
-- its providers in construction order. The fuel of the walk is one more than the number of
-- registrations.
pub mod Steps
pub mod Guarantees
pub mod Total
pub mod Declarations
pub mod Dispatch
use caelix.Prelude.{ℕ, suc, Option, none, List, [], map, length}
use caelix.Errors.{Outcome, done, ◌>>=◌, ◌>>◌}
use caelix.Container.{Container}
use caelix.Graph.{ModuleGraph, ProviderRegistration, definitions, def, local_types, range}
use caelix.Visibility.{
  TypeMap, Scopes, collect_types, collect_exports, global_exports, each, check_registration,
  check_event_handlers, visible,
}
use caelix.Owners.{check_owners}
use caelix.Schedule.{Walk, start, schedule_all}

pub scopes_of : ModuleGraph → Outcome Scopes
unfolding collect_exports global_exports local_types
scopes_of g =
    let n = length g.nodes in
    let locals = map (local_types g) (range 0 n) in
    do
      exports ← collect_exports locals 0 g.nodes (map (λ _. []) (range 0 n))
      globals ← global_exports exports 0 g.nodes
      done (record { locals = locals; exports = exports; globals = globals })

unfoldable pub preflight : ModuleGraph → Option Container → Outcome (List ProviderRegistration)
unfolding definitions def collect_types scopes_of each check_registration check_event_handlers
    visible check_owners schedule_all
preflight g c = do
  by_type ← collect_types g c (λ _. none) (definitions g)
  s ← scopes_of g
  each (check_registration g c by_type s) (definitions g)
  check_event_handlers g s 0 g.nodes
  check_owners g
  w ← schedule_all g c by_type (suc (length (definitions g))) (definitions g) start
  done w.sorted
