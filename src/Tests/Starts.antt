-- ===== src/Tests/Starts.antt =====
-- Starts, bootstraps, shutdowns and builds of the sample application.
use caelix.Prelude.{◌≡◌, ◌↔◌, refl, List, [], ◌∷◌, All}
use caelix.Errors.{
  text, HttpException, startup_error, missing_dependency, hook_failed, done, fail, panicked,
}
use caelix.Container.{ProviderValue, ProviderDef, new}
use caelix.Metadata.{GatewayDef, web_socket, socket_io, ModuleMetadata}
use caelix.Metadata
use caelix.Graph.{ModuleGraph}
use caelix.Lifecycle.{World, initialize_graph}
use caelix.Lifecycle.Trace.{started, stopped}
use caelix.Lifecycle.Live.{Live}
use caelix.Lifecycle.Ready.{Populated, initialize_graph-Populated}
use caelix.Lifecycle.Stop.{ShutDown, start_then_shutdown}
use caelix.Startup.{
  build_container_with_setup, world, seed_overrides, overrides, validate_gateway_paths_in_graph,
  build_container_with_overrides,
}
use caelix.Startup.Gateways.{Rooted, Apart, gateways_of, validate_gateway_paths_iff}
use caelix.Startup.Build.{overrides-Keyed}
use caelix.Tests.Samples.{orders, value_of, app, application, library, listener, plain, dependency}

abbrev refused : HttpException
refused = record { status = 503; error = "Service Unavailable"; message = text "no queue" }

-- The listener, which is the last provider, refuses to start.
abbrev failing_listener : ProviderDef
failing_listener = record listener { init_fn = λ v. fail refused }

abbrev failing_app : ModuleGraph
failing_app = record {
  nodes =
      record { type_id = 100; type_name = "LibraryModule"; metadata = library; imports = [] }
      ∷ record {
        type_id = 101;
        type_name = "AppModule";
        metadata = record application { providers = failing_listener ∷ [] };
        imports = 0 ∷ [];
      }
      ∷ [];
}

failing_start :
    (initialize_graph failing_app (world new)).0
    ≡ fail (
        startup_error
          (hook_failed "on_module_init" "Listener" "Service Unavailable" (text "no queue")))
unfolding initialize_graph
failing_start = refl

failing_start_stops : stopped (initialize_graph failing_app (world new)).1.calls ≡ 11 ∷ 1 ∷ 10 ∷ []
unfolding initialize_graph
failing_start_stops = refl

-- The shutdown hook that the rollback calls first panics: the others do not run.
abbrev panicking_app : ModuleGraph
panicking_app = record {
  nodes =
      record { type_id = 100; type_name = "LibraryModule"; metadata = library; imports = [] }
      ∷ record {
        type_id = 101;
        type_name = "AppModule";
        metadata = record application {
          providers = failing_listener ∷ [];
          microservices =
              record { provider = record orders { shutdown_fn = λ v. panicked }; handlers = [] }
              ∷ [];
        };
        imports = 0 ∷ [];
      }
      ∷ [];
}

panicking_rollback :
    ((initialize_graph panicking_app (world new)).0 ≡ panicked)
    × (stopped (initialize_graph panicking_app (world new)).1.calls ≡ 11 ∷ [])
unfolding initialize_graph
panicking_rollback = (refl, refl)

-- `Shared` is replaced.
abbrev replaced : List ProviderDef
replaced = plain 10 "Fake" [] ∷ []

abbrev seeded : World
seeded = world (seed_overrides new (overrides [] replaced))

initialize_graph-Populated_example : Populated app (initialize_graph app seeded)
initialize_graph-Populated_example =
    initialize_graph-Populated app seeded refl refl refl (overrides-Keyed replaced)

abbrev running : World
running = (initialize_graph app (world new)).1

app_starts : initialize_graph app (world new) ≡ (done tt, running)
unfolding initialize_graph
app_starts = refl

app_started : started running.calls ≡ 10 ∷ 1 ∷ 11 ∷ 12 ∷ []
unfolding initialize_graph
app_started = refl

start_then_shutdown_example : ShutDown app running
start_then_shutdown_example = start_then_shutdown app (world new) running refl refl app_starts

built_app : (build_container_with_overrides app replaced).0 ≡ done tt
unfolding build_container_with_overrides
built_app = refl

-- An override that needs nothing, in place of a provider that needs a type that nobody provides:
-- the start succeeds, the checks behind it look at the declared dependencies again and fail.
abbrev needy : ModuleGraph
needy = record {
  nodes =
      record {
        type_id = 100;
        type_name = "NeedyModule";
        metadata = record Metadata.new {
          providers = plain 20 "Needy" (dependency 21 "Absent" ∷ []) ∷ [];
        };
        imports = [];
      }
      ∷ [];
}

abbrev self_contained : List ProviderDef
self_contained = plain 20 "Needy" [] ∷ []

needy_starts :
    (initialize_graph needy (world (seed_overrides new (overrides [] self_contained)))).0 ≡ done tt
unfolding initialize_graph
needy_starts = refl

needy_build_fails :
    (build_container_with_overrides needy self_contained).0
    ≡ fail (startup_error (missing_dependency "Needy" "Absent"))
unfolding build_container_with_overrides
needy_build_fails = refl

abbrev chat : GatewayDef
chat = record { path = "/chat"; type_id = 30; provider = plain 30 "Chat" []; kind = web_socket }

-- One path with both transports.
abbrev chat_app : ModuleGraph
chat_app = record {
  nodes =
      record {
        type_id = 100;
        type_name = "ChatModule";
        metadata = record Metadata.new { gateways = chat ∷ record chat { kind = socket_io } ∷ [] };
        imports = [];
      }
      ∷ [];
}

validate_gateway_paths_iff_example :
    (validate_gateway_paths_in_graph chat_app ≡ done tt)
    ↔ (All Rooted (gateways_of chat_app.nodes) × Apart (gateways_of chat_app.nodes))
validate_gateway_paths_iff_example = validate_gateway_paths_iff chat_app

chat_accepted : validate_gateway_paths_in_graph chat_app ≡ done tt
unfolding validate_gateway_paths_in_graph
chat_accepted = refl

-- A value that the application registers meets the dependency that nobody provides.
abbrev absent_value : List ProviderValue
absent_value = value_of 21 ∷ []

needy_built : (build_container_with_setup needy absent_value).0 ≡ done tt
unfolding build_container_with_setup
needy_built = refl
