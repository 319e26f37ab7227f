-- ===== src/Tests/Modules.antt =====
-- The discovery of four modules, of which two share an import, and of two that import each other.
use caelix.Prelude.{ℕ, zero, suc, String, ◌≡◌, refl, inl, inr, List, [], ◌∷◌, map, arith, In, All}
use caelix.Errors.{Outcome, done, fail, startup_error, circular_import, ◌>>=◌, Returns}
use caelix.Metadata.{new, ModuleDef, ModuleMetadata}
use caelix.Graph.{ModuleGraph}
use caelix.Discovery.{discover_from, validate_controllers}
use caelix.Discovery.Imports.{Ends, IsReason}
use caelix.Discovery.Result.{IsGraph, discover_from-Ends}
use caelix.Tests.Samples.{application, library}

abbrev module_def : ℕ → String → ModuleDef
module_def t name = record { type_id = t; type_name = name }

-- The application imports its users and its orders; both import the library, and the orders the users.
abbrev declared : ℕ → ModuleMetadata
declared zero = record application { imports = module_def 1 "Users" ∷ module_def 2 "Orders" ∷ [] }
declared (suc zero) = record new { imports = module_def 3 "Library" ∷ [] }
declared (suc (suc zero)) = record new {
  imports = module_def 3 "Library" ∷ module_def 1 "Users" ∷ [];
}
declared (suc (suc (suc n))) = library

abbrev root : ModuleDef
root = module_def 0 "App"

abbrev summary : Outcome ModuleGraph → Outcome (List (ℕ × List ℕ))
summary found = found >>= λ g. done (map (λ n. (n.type_id, n.imports)) g.nodes)

imports_first :
    summary (discover_from declared 5 root)
    ≡ done ((3, []) ∷ (1, 0 ∷ []) ∷ (2, 0 ∷ 1 ∷ []) ∷ (0, 1 ∷ 2 ∷ []) ∷ [])
unfolding discover_from
imports_first = refl

abbrev circular : ℕ → ModuleMetadata
circular zero = record new { imports = module_def 1 "Users" ∷ [] }
circular (suc n) = record new { imports = root ∷ [] }

circular_fails :
    discover_from circular 3 root
    ≡ fail (startup_error (circular_import ("App" ∷ "Users" ∷ "App" ∷ [])))
unfolding discover_from
circular_fails = refl

abbrev all_types : List ℕ
all_types = 0 ∷ 1 ∷ 2 ∷ 3 ∷ []

All-closed : (t : ℕ) → In t all_types → All (λ d. In d.type_id all_types) (declared t).imports
All-closed zero i = (inr (inl refl), (inr (inr (inl refl)), tt))
All-closed (suc zero) i = (inr (inr (inr (inl refl))), tt)
All-closed (suc (suc zero)) i = (inr (inr (inr (inl refl))), (inr (inl refl), tt))
All-closed (suc (suc (suc n))) i = tt

all_valid : (t : ℕ) → In t all_types → Returns (validate_controllers (declared t).controllers)
all_valid zero i = tt
all_valid (suc zero) i = tt
all_valid (suc (suc zero)) i = tt
all_valid (suc (suc (suc n))) i = tt

discover_from-Ends_example :
    Ends
      (IsReason declared all_types)
      (discover_from declared 5 root)
      (IsGraph declared all_types root)
discover_from-Ends_example =
    discover_from-Ends declared all_types 5 root All-closed all_valid (inl refl) (omega arith)
