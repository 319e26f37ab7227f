-- ===== src/Metadata.antt =====
-- crates/caelix-core/src/module.rs, events.rs, microservice.rs: the metadata that a module
-- declares, and its builder.
use caelix.Prelude.{ℕ, String, Bool, true, false, List, [], ◌∷◌, ◌++◌, ◌==◌, ◌||◌, if◌then◌else◌}
use caelix.Errors.{Outcome}
use caelix.Container.{ProviderDef, ProviderDependency}

pub data MessageHandlerKind : Type 0 where
  command event : MessageHandlerKind

pub record MessageHandlerDef : Type 0 where
  pub kind : MessageHandlerKind
  pub pattern : String

pub record MicroserviceDef : Type 0 where
  pub provider : ProviderDef
  pub handlers : List MessageHandlerDef

pub record EventHandlerDef : Type 0 where
  pub type_id : ℕ
  pub type_name : String
  pub event_type : ℕ

pub data GatewayKind : Type 0 where
  web_socket socket_io : GatewayKind

pub record GatewayDef : Type 0 where
  pub path : String
  pub type_id : ℕ
  pub provider : ProviderDef
  pub kind : GatewayKind

pub record ControllerDef : Type 0 where
  pub validate_routes_fn : Outcome (Unit {0})
  pub provider : ProviderDef

-- `metadata_fn` is user code; it is found by the type through the function that discovery takes.
pub record ModuleDef : Type 0 where
  pub type_id : ℕ
  pub type_name : String

pub record ModuleMetadata : Type 0 where
  pub imports : List ModuleDef
  pub providers : List ProviderDef
  pub controllers : List ControllerDef
  pub event_handlers : List EventHandlerDef
  pub gateways : List GatewayDef
  pub microservices : List MicroserviceDef
  pub exports : List ProviderDependency
  pub global : Bool

abbrev pub new : ModuleMetadata
new = record {
  imports = [];
  providers = [];
  controllers = [];
  event_handlers = [];
  gateways = [];
  microservices = [];
  exports = [];
  global = false;
}

abbrev pub new_global : ModuleMetadata
new_global = record new { global = true }

abbrev pub import : ModuleMetadata → ModuleDef → ModuleMetadata
import m d = record m { imports = m.imports ++ d ∷ [] }

abbrev pub provider : ModuleMetadata → ProviderDef → ModuleMetadata
provider m d = record m { providers = m.providers ++ d ∷ [] }

abbrev pub controller : ModuleMetadata → ControllerDef → ModuleMetadata
controller m d = record m { controllers = m.controllers ++ d ∷ [] }

abbrev pub gateway : ModuleMetadata → GatewayDef → ModuleMetadata
gateway m d = record m { gateways = m.gateways ++ d ∷ [] }

abbrev pub microservice : ModuleMetadata → MicroserviceDef → ModuleMetadata
microservice m d = record m { microservices = m.microservices ++ d ∷ [] }

abbrev pub event_handler : ModuleMetadata → EventHandlerDef → ModuleMetadata
event_handler m d = record m { event_handlers = m.event_handlers ++ d ∷ [] }

abbrev pub export : ModuleMetadata → ProviderDependency → ModuleMetadata
export m d = record m { exports = m.exports ++ d ∷ [] }

abbrev depends_on : List ProviderDependency → ℕ → Bool
depends_on [] t = false
depends_on (d ∷ ds) t = d.type_id == t || depends_on ds t

abbrev add_route_dependencies :
    List ProviderDependency → List ProviderDependency → List ProviderDependency
add_route_dependencies deps [] = deps
add_route_dependencies deps (r ∷ routes) =
    add_route_dependencies (if depends_on deps r.type_id then deps else deps ++ r ∷ []) routes

-- `ControllerDef::of`: the route dependencies that the constructor does not declare are added.
abbrev pub controller_of :
    ProviderDef → List ProviderDependency → Outcome (Unit {0}) → ControllerDef
controller_of p routes validate = record {
  validate_routes_fn = validate;
  provider = record p { dependencies = add_route_dependencies p.dependencies routes };
}
