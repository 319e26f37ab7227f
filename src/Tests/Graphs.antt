-- ===== src/Tests/Graphs.antt =====
-- `preflight` and the subject patterns on the sample application.
use caelix.Prelude.{String, ◌≡◌, arith, refl, ◌↔◌, true, false, none, some, List, [], ◌∷◌, All, In}
use caelix.Errors.{done, fail, panicked, startup_error, not_visible, Returns}
use caelix.Container.{ProviderDef}
use caelix.Subjects.{valid_microservice_pattern, microservice_patterns_intersect}
use caelix.Subjects.Matching.{IsLiteral, Accepts}
use caelix.Subjects.Overlap.{patterns_intersect_iff}
use caelix.Graph.{ModuleGraph, definitions, def}
use caelix.Visibility.{effective}
use caelix.Visibility.Types.{Unique}
use caelix.Schedule.Sequence.{key, after, Ordered}
use caelix.Owners.Single.{message_handlers}
use caelix.Owners.Disjoint.{AllValid}
use caelix.Owners.OneOwner.{OneOwner}
use caelix.Preflight.{preflight}
use caelix.Preflight.Guarantees.{
  provided, DependencyOk, preflight-Ordered, preflight_visibility, preflight-Unique,
}
use caelix.Visibility.Sets.{AreInBounds}
use caelix.Preflight.Total.{preflight-Returns}
use caelix.Preflight.Declarations.{ExportsOk, HandlersOk, preflight-Declares, preflight-OneOwner}
use caelix.Preflight.Dispatch.{HasOneOwner, preflight-HasOneOwner}
use caelix.Tests.Samples.{app, app_order, library, application}

app-preflight : preflight app none ≡ done app_order
unfolding preflight
app-preflight = refl

-- The library without its exports: its service is not visible in the application.
abbrev sealed_app : ModuleGraph
sealed_app = record {
  nodes =
      record {
        type_id = 100;
        type_name = "LibraryModule";
        metadata = record library { exports = [] };
        imports = [];
      }
      ∷ record { type_id = 101; type_name = "AppModule"; metadata = application; imports = 0 ∷ [] }
      ∷ [];
}

sealed_preflight :
    preflight sealed_app none ≡ fail (startup_error (not_visible "Orders" "Shared" "AppModule"))
unfolding preflight
sealed_preflight = refl

preflight-Ordered_example :
    Ordered app none (λ t. In t (provided app)) [] app_order
    × All (λ r. In (key app r) (after app [] app_order)) (definitions app)
preflight-Ordered_example = preflight-Ordered app none app_order app-preflight

preflight_visibility_example :
    All
      (λ r.
        (d : ProviderDef) × (def app r ≡ some d)
        × All (DependencyOk app none r.module_index) (effective none d).dependencies)
      (definitions app)
preflight_visibility_example = preflight_visibility app none app_order app-preflight

preflight-Unique_example : Unique app none (definitions app)
preflight-Unique_example = preflight-Unique app none app_order app-preflight

-- An import that is no module of the graph.
abbrev stray_app : ModuleGraph
stray_app = record {
  nodes =
      record { type_id = 101; type_name = "AppModule"; metadata = library; imports = 5 ∷ [] } ∷ [];
}

stray_import_panics : preflight stray_app none ≡ panicked
unfolding preflight
stray_import_panics = refl

app_in_bounds : AreInBounds app
app_in_bounds = (tt, ((omega arith, tt), tt))

preflight-Returns_example : Returns (preflight app none)
preflight-Returns_example = preflight-Returns app none app_in_bounds

preflight-Declares_example : ExportsOk app 0 app.nodes × HandlersOk app 0 app.nodes
preflight-Declares_example = preflight-Declares app none app_order app-preflight

preflight-OneOwner_example :
    AllValid (message_handlers app.nodes) × OneOwner (message_handlers app.nodes)
preflight-OneOwner_example = preflight-OneOwner app none app_order app-preflight

preflight-HasOneOwner_example : HasOneOwner (message_handlers app.nodes) "audit.login"
preflight-HasOneOwner_example = preflight-HasOneOwner app none app_order "audit.login" app-preflight

audit_valid : valid_microservice_pattern "audit.>" false ≡ true
unfolding valid_microservice_pattern
audit_valid = refl

star_valid : valid_microservice_pattern "*.created" false ≡ true
unfolding valid_microservice_pattern
star_valid = refl

patterns_intersect_iff_example : (microservice_patterns_intersect "audit.>" "*.created" ≡ true) ↔ (
    (s : List String) × All IsLiteral s
    × Accepts ("audit" ∷ ">" ∷ []) s
    × Accepts ("*" ∷ "created" ∷ []) s)
patterns_intersect_iff_example =
    patterns_intersect_iff "audit.>" "*.created" false false audit_valid star_valid

command_valid : valid_microservice_pattern "orders.get" true ≡ true
unfolding valid_microservice_pattern
command_valid = refl

wildcard_command_invalid : valid_microservice_pattern "orders.*" true ≡ false
unfolding valid_microservice_pattern
wildcard_command_invalid = refl
