-- ===== src/Schedule.antt =====
-- crates/caelix-core/src/module.rs: `schedule` of `ModuleGraph::preflight`, the depth-first walk that
-- puts each provider behind its dependencies and finds dependency cycles.
pub mod Sequence
pub mod Order
pub mod Total
use caelix.Prelude.{ℕ, zero, suc, ◌+◌, String, Bool, Option, none, some, List, [], ◌∷◌, ◌++◌}
use caelix.Errors.{
  provider_cycle, Outcome, done, fail, out_of_fuel, startup_error, ◌>>=◌, ◌>>◌, at_index,
}
use caelix.Container.{ProviderDef, ProviderDependency, Container, update}
use caelix.Graph.{ModuleGraph, ProviderRegistration, def}
use caelix.Visibility.{TypeMap, effective}

-- The states 1 and 2 of the source; a type with no entry has not been met.
pub data Mark : Type 0 where
  entered finished : Mark

pub record Walk : Type 0 where
  pub states : ℕ → Option Mark
  pub stack : List String
  pub sorted : List ProviderRegistration

abbrev pub start : Walk
start = record { states = λ _. none; stack = []; sorted = [] }

-- `Vec::pop`
abbrev pub pop : List String → List String
pop [] = []
pop (x ∷ []) = []
pop (x ∷ y ∷ ys) = x ∷ pop (y ∷ ys)

abbrev pub enter : ProviderDef → Walk → Walk
enter d w = record w {
  states = update w.states d.type_id entered;
  stack = w.stack ++ d.type_name ∷ [];
}

abbrev pub leave : ProviderRegistration → ProviderDef → Walk → Walk
leave r d w = record {
  states = update w.states d.type_id finished;
  stack = pop w.stack;
  sorted = w.sorted ++ r ∷ [];
}

module _ (g : ModuleGraph) (c : Option Container) (by_type : TypeMap) where
  -- The loop over the dependencies, where `visit` schedules one registration.
  pub visit_dependencies :
      (ProviderRegistration → Walk → Outcome Walk) → List ProviderDependency → Walk → Outcome Walk
  visit_dependencies visit [] w = done w
  visit_dependencies visit (dep ∷ deps) w = elim (by_type dep.type_id) [
    | none ↦ visit_dependencies visit deps w
    | some next ↦ (do w' ← visit next w; visit_dependencies visit deps w')
  ]

  pub visit_def :
      (ProviderRegistration → Walk → Outcome Walk)
      → ProviderRegistration
      → ProviderDef
      → Option Mark
      → Walk
      → Outcome Walk
  unfolding visit_dependencies
  visit_def visit r d (some finished) w = done w
  visit_def visit r d (some entered) w =
      fail (startup_error (provider_cycle (w.stack ++ d.type_name ∷ [])))
  visit_def visit r d none w = do
    w' ← visit_dependencies visit (effective c d).dependencies (enter d w)
    done (leave r d w')

  -- The fuel bounds the depth of the walk.
  unfoldable pub schedule : ℕ → ProviderRegistration → Walk → Outcome Walk
  unfolding visit_def
  schedule zero r w = out_of_fuel
  schedule (suc fuel) r w = do
    d ← at_index (def g r)
    visit_def (schedule fuel) r d (w.states d.type_id) w

  unfoldable pub schedule_all : ℕ → List ProviderRegistration → Walk → Outcome Walk
  unfolding schedule
  schedule_all fuel [] w = done w
  schedule_all fuel (r ∷ rs) w = do w' ← schedule fuel r w; schedule_all fuel rs w'
