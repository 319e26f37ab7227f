-- ===== src/Tests/Samples.antt =====
-- Two modules: a library that exports a service and the event bus, and an application on it.
use caelix.Prelude.{ℕ, String, List, [], ◌∷◌}
use caelix.Errors.{done}
use caelix.Container.{ProviderValue, ProviderDependency, ProviderDef, event_bus_type}
use caelix.Metadata.{new, command, event, MessageHandlerDef, ModuleMetadata}
use caelix.Graph.{ModuleGraph, ProviderRegistration, provider, microservice}

abbrev pub value_of : ℕ → ProviderValue
value_of t = record { value_type = t; identity = t }

abbrev pub dependency : ℕ → String → ProviderDependency
dependency t name = record { type_id = t; type_name = name }

-- A provider whose constructor and hooks succeed.
abbrev pub plain : ℕ → String → List ProviderDependency → ProviderDef
plain t name deps = record {
  type_id = t;
  type_name = name;
  dependencies = deps;
  build = λ s. done (value_of t);
  init_fn = λ v. done tt;
  bootstrap_fn = λ v. done tt;
  shutdown_fn = λ v. done tt;
}

abbrev pub shared : ProviderDef
shared = plain 10 "Shared" []

abbrev pub bus : ProviderDef
bus = plain event_bus_type "EventBus" []

abbrev pub orders : ProviderDef
orders = plain 11 "Orders" (dependency 10 "Shared" ∷ [])

abbrev pub listener : ProviderDef
listener = plain 12 "Listener" (dependency 11 "Orders" ∷ dependency 0 "Logger" ∷ [])

abbrev pub library : ModuleMetadata
library = record new {
  providers = shared ∷ bus ∷ [];
  exports = dependency 10 "Shared" ∷ dependency event_bus_type "EventBus" ∷ [];
}

abbrev pub get_order : MessageHandlerDef
get_order = record { kind = command; pattern = "orders.get" }

abbrev pub audit : MessageHandlerDef
audit = record { kind = event; pattern = "audit.>" }

abbrev pub application : ModuleMetadata
application = record new {
  providers = listener ∷ [];
  event_handlers = record { type_id = 12; type_name = "Listener"; event_type = 90 } ∷ [];
  microservices = record { provider = orders; handlers = get_order ∷ audit ∷ [] } ∷ [];
}

abbrev pub app : ModuleGraph
app = record {
  nodes =
      record { type_id = 100; type_name = "LibraryModule"; metadata = library; imports = [] }
      ∷ record { type_id = 101; type_name = "AppModule"; metadata = application; imports = 0 ∷ [] }
      ∷ [];
}

abbrev pub app_order : List ProviderRegistration
app_order =
    record { module_index = 0; slot = provider 0 }
    ∷ record { module_index = 0; slot = provider 1 }
    ∷ record { module_index = 1; slot = microservice 0 }
    ∷ record { module_index = 1; slot = provider 0 }
    ∷ []
