-- ===== src/Discovery.antt =====
-- crates/caelix-core/src/module.rs: `ModuleGraph::discover_from`, which walks the imports of the root
-- module and puts the modules in the order of initialization, imports first.
pub mod Imports
pub mod Marks
pub mod Visited
pub mod Visit
pub mod Placed
pub mod Order
pub mod Rebuilt
pub mod Result
use caelix.Prelude.{
  ℕ, zero, suc, ◌+◌, String, Bool, true, false, ◌||◌, Option, none, some, List, [], ◌∷◌, ◌++◌, ◌==◌,
  if◌then◌else◌, length, get_elem?, set,
}
use caelix.Errors.{
  circular_import, Outcome, done, fail, out_of_fuel, startup_error, ◌>>=◌, ◌>>◌, at_index,
}
use caelix.Container.{update}
use caelix.Metadata.{ControllerDef, ModuleDef, ModuleMetadata}
use caelix.Graph.{ModuleNode, ModuleGraph}
use caelix.Schedule.{Mark, entered, finished, pop}

-- The states 1 and 2 of the source are those of `schedule`.
pub record Found : Type 0 where
  pub nodes : List ModuleNode
  pub states : ℕ → Option Mark
  pub path : List String

abbrev pub nothing_found : Found
nothing_found = record { nodes = []; states = λ _. none; path = [] }

abbrev pub map_suc : Option ℕ → Option ℕ
map_suc none = none
map_suc (some n) = some (suc n)

abbrev pub position : List ModuleNode → ℕ → Option ℕ
position [] t = none
position (node ∷ nodes) t =
    let rest = position nodes t in if node.type_id == t then some 0 else map_suc rest

abbrev pub validate_controllers : List ControllerDef → Outcome (Unit {0})
validate_controllers [] = done tt
validate_controllers (c ∷ cs) = c.validate_routes_fn >> validate_controllers cs

-- `push_import`: the child goes to the end of the imports of `graph[index]`.
abbrev pub push_import : ℕ → ℕ → Found → Outcome Found
push_import index child w = do
  node ← at_index (get_elem? w.nodes index)
  done (record w {
    nodes = set w.nodes index (record node { imports = node.imports ++ child ∷ [] });
  })

abbrev pub new_node : ModuleDef → ModuleMetadata → ModuleNode
new_node d m = record {
  type_id = d.type_id;
  type_name = d.type_name;
  metadata = record m { imports = [] };
  imports = [];
}

abbrev pub enter : ModuleDef → ModuleMetadata → Found → Found
enter d m w = record {
  nodes = w.nodes ++ new_node d m ∷ [];
  states = update w.states d.type_id entered;
  path = w.path ++ d.type_name ∷ [];
}

abbrev pub leave : ModuleDef → Found → Found
leave d w = record w { states = update w.states d.type_id finished; path = pop w.path }

-- `metadata_of` has what the `metadata_fn` of a module type returns.
module _ (metadata_of : ℕ → ModuleMetadata) where
  abbrev pub Visitor : Type 0
  Visitor = ModuleDef → Found → Outcome (ℕ × Found)

  pub visit_imports : Visitor → ℕ → List ModuleDef → Found → Outcome Found
  visit_imports visit index [] w = done w
  visit_imports visit index (import ∷ imports) w = do
    (child, w1) ← visit import w
    w2 ← push_import index child w1
    visit_imports visit index imports w2

  pub visit_def : Visitor → ModuleDef → Option Mark → Found → Outcome (ℕ × Found)
  unfolding visit_imports
  visit_def visit d (some finished) w = do
    index ← at_index (position w.nodes d.type_id)
    done (index, w)
  visit_def visit d (some entered) w =
      fail (startup_error (circular_import (w.path ++ d.type_name ∷ [])))
  visit_def visit d none w = do
    let metadata = metadata_of d.type_id
    validate_controllers metadata.controllers
    let index = length w.nodes
    w1 ← visit_imports visit index metadata.imports (enter d metadata w)
    done (index, leave d w1)

  -- The fuel bounds the depth of the walk.
  unfoldable pub visit : ℕ → Visitor
  unfolding visit_def
  visit zero d w = out_of_fuel
  visit (suc fuel) d w = visit_def (visit fuel) d (w.states d.type_id) w

pub record Placing : Type 0 where
  pub seen : ℕ → Bool
  pub ordered : List ℕ

abbrev pub insert_seen : ℕ → Placing → Placing
insert_seen index w = record w { seen = λ j. index == j || w.seen j }

abbrev pub push_ordered : ℕ → Placing → Placing
push_ordered index w = record w { ordered = w.ordered ++ index ∷ [] }

pub order_children : (ℕ → Placing → Outcome Placing) → List ℕ → Placing → Outcome Placing
order_children order [] w = done w
order_children order (child ∷ children) w = do w1 ← order child w; order_children order children w1

-- Imports before the module that imports them.
unfoldable pub order : ℕ → List ModuleNode → ℕ → Placing → Outcome Placing
unfolding order_children
order zero nodes index w = out_of_fuel
order (suc fuel) nodes index w = if w.seen index then done w else (do
  node ← at_index (get_elem? nodes index)
  w1 ← order_children (order fuel nodes) node.imports (insert_seen index w)
  done (push_ordered index w1))

-- `remap` has the new index of each old one.
pub remap_from : ℕ → List ℕ → (ℕ → Option ℕ) → ℕ → Option ℕ
remap_from new [] m = m
remap_from new (old ∷ olds) m = remap_from (suc new) olds (update m old new)

pub remap_imports : (ℕ → Option ℕ) → List ℕ → Outcome (List ℕ)
remap_imports remap [] = done []
remap_imports remap (i ∷ is) = do j ← at_index (remap i); js ← remap_imports remap is; done (j ∷ js)

-- A slot whose node was taken is `some none`.
pub rebuild : (ℕ → Option ℕ) → List ℕ → List (Option ModuleNode) → Outcome (List ModuleNode)
unfolding remap_imports
rebuild remap [] slots = done []
rebuild remap (old ∷ olds) slots = do
  slot ← at_index (get_elem? slots old)
  node ← at_index slot
  imports ← remap_imports remap node.imports
  rest ← rebuild remap olds (set slots old none)
  done (record node { imports = imports } ∷ rest)

abbrev pub slots_of : List ModuleNode → List (Option ModuleNode)
slots_of [] = []
slots_of (node ∷ nodes) = some node ∷ slots_of nodes

unfoldable pub in_order : List ModuleNode → ℕ → Outcome ModuleGraph
unfolding order remap_from rebuild
in_order nodes root = do
  w ← order (length nodes) nodes root (record { seen = λ _. false; ordered = [] })
  let remap = remap_from 0 w.ordered (λ _. none)
  result ← rebuild remap w.ordered (slots_of nodes)
  root_index ← at_index (remap root)
  done (record { nodes = result })

unfoldable pub discover_from : (ℕ → ModuleMetadata) → ℕ → ModuleDef → Outcome ModuleGraph
unfolding visit in_order
discover_from metadata_of fuel root = do
  (root_index, w) ← visit metadata_of fuel root nothing_found
  in_order w.nodes root_index
