-- ===== src/Startup.antt =====
-- crates/caelix-core/src/module.rs: `build_container_with_overrides`, `build_container_with_setup`, `ProviderOverrides`,
-- `validate_module_providers`, `validate_gateway_paths_in_graph`.
-- The source discovers the graph anew in each step; here the steps share it, since the metadata of
-- a module does not change.
pub mod Gateways
pub mod Build
use caelix.Prelude.{
  ℕ, String, Bool, true, false, ◌&&◌, ◌||◌, not, Option, none, some, List, [], ◌∷◌, ◌++◌,
  starts_with, str_eq,
}
use caelix.Errors.{
  Outcome, done, ◌>>=◌, ◌>>◌, fail_if, at_index, bad_gateway_path, duplicate_gateway_path,
  missing_at_startup,
}
use caelix.Container.{
  ProviderValue, register_instance, ProviderDef, Container, new, contains_type_id, remove_override,
  assert_no_unused_overrides,
}
use caelix.Metadata.{GatewayKind, web_socket, socket_io, GatewayDef}
use caelix.Graph.{ModuleNode, ModuleGraph, ProviderRegistration, definitions, def}
use caelix.Visibility.{each}
use caelix.Preflight.{preflight}
use caelix.Lifecycle.{World, Run, continue, or_rollback, initialize_graph, bootstrap_graph}

-- `ProviderOverrides::insert`
abbrev pub insert : List (ℕ × ProviderDef) → ProviderDef → List (ℕ × ProviderDef)
insert defs d = (d.type_id, d) ∷ remove_override defs d.type_id

abbrev pub overrides : List (ℕ × ProviderDef) → List ProviderDef → List (ℕ × ProviderDef)
overrides defs [] = defs
overrides defs (d ∷ ds) = overrides (insert defs d) ds

abbrev pub seed_overrides : Container → List (ℕ × ProviderDef) → Container
seed_overrides c defs = record c { pending_overrides = defs }

abbrev pub assert_registered : Container → ProviderDef → Outcome (Unit {0})
assert_registered c d =
    fail_if (not (contains_type_id c d.type_id)) (missing_at_startup d.type_name)

abbrev pub assert_registration : ModuleGraph → Container → ProviderRegistration → Outcome (Unit {0})
assert_registration g c r = do d ← at_index (def g r); assert_registered c d

unfoldable pub validate_module_providers : ModuleGraph → Container → Outcome (Unit {0})
unfolding preflight each def definitions
validate_module_providers g c = do
  order ← preflight g (some c)
  each (assert_registration g c) (definitions g)

abbrev pub is_websocket : GatewayDef → Bool
is_websocket gateway = elim gateway.kind [ web_socket ↦ true | socket_io ↦ false ]

abbrev pub same_bool : Bool → Bool → Bool
same_bool true b = b
same_bool false b = not b

-- The set `paths`
abbrev pub has_path : List (String × Bool) → String → Bool → Bool
has_path [] path websocket = false
has_path ((p, w) ∷ paths) path websocket =
    (str_eq p path && same_bool w websocket) || has_path paths path websocket

unfoldable pub validate_gateways :
    List (String × Bool) → List GatewayDef → Outcome (List (String × Bool))
validate_gateways paths [] = done paths
validate_gateways paths (gateway ∷ gateways) = do
  fail_if (not (starts_with b'/' gateway.path)) (bad_gateway_path gateway.path)
  fail_if (has_path paths gateway.path (is_websocket gateway)) (duplicate_gateway_path gateway.path)
  validate_gateways ((gateway.path, is_websocket gateway) ∷ paths) gateways

unfoldable pub validate_nodes : List (String × Bool) → List ModuleNode → Outcome (Unit {0})
unfolding validate_gateways
validate_nodes paths [] = done tt
validate_nodes paths (node ∷ nodes) = do
  paths' ← validate_gateways paths node.metadata.gateways
  validate_nodes paths' nodes

unfoldable pub validate_gateway_paths_in_graph : ModuleGraph → Outcome (Unit {0})
unfolding validate_nodes
validate_gateway_paths_in_graph g = validate_nodes [] g.nodes

-- The checks between the initialization and the bootstrap.
abbrev pub validate : ModuleGraph → Container → Outcome (Unit {0})
validate g c = do
  assert_no_unused_overrides c
  validate_module_providers g c
  validate_gateway_paths_in_graph g

-- `validate_module`
abbrev pub validate_module : ModuleGraph → Outcome (Unit {0})
validate_module g = do order ← preflight g none; validate_gateway_paths_in_graph g

abbrev pub world : Container → World
world c = record { container = c; bus = []; calls = [] }

unfoldable pub build_container_with_overrides : ModuleGraph → List ProviderDef → Run
unfolding initialize_graph bootstrap_graph validate_module_providers validate_gateway_paths_in_graph
    assert_no_unused_overrides
build_container_with_overrides g defs =
    continue (initialize_graph g (world (seed_overrides new (overrides [] defs))))
      (λ w. continue (or_rollback g (validate g w.container, w)) (bootstrap_graph g))

-- What the application sets up before its modules: `setup` can call no other operation that changes a
-- container without awaiting it.
abbrev pub set_up : Container → List ProviderValue → Container
set_up c [] = c
set_up c (v ∷ values) = set_up (register_instance c v) values

abbrev pub validate_setup : ModuleGraph → Container → Outcome (Unit {0})
validate_setup g c = do validate_module_providers g c; validate_gateway_paths_in_graph g

unfoldable pub build_container_with_setup : ModuleGraph → List ProviderValue → Run
unfolding initialize_graph bootstrap_graph validate_module_providers validate_gateway_paths_in_graph
build_container_with_setup g values =
    continue (initialize_graph g (world (set_up new values)))
      (λ w. continue (or_rollback g (validate_setup g w.container, w)) (bootstrap_graph g))
