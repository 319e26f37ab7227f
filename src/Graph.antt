-- ===== src/Graph.antt =====
-- crates/caelix-core/src/module.rs: `ModuleGraph`, the modules of an application in the order in
-- which they are initialized, and the registrations of their providers.
pub mod Definitions
pub mod Complete
use caelix.Prelude.{
  ℕ, zero, suc, ◌+◌, String, Bool, Option, none, some, List, [], ◌∷◌, ◌++◌, map, ◌==◌,
  if◌then◌else◌, length, get_elem?,
}
use caelix.Container.{ProviderDef}
use caelix.Metadata.{ModuleMetadata, ControllerDef, GatewayDef, MicroserviceDef}

pub record ModuleNode : Type 0 where
  pub type_id : ℕ
  pub type_name : String
  pub metadata : ModuleMetadata
  pub imports : List ℕ

pub record ModuleGraph : Type 0 where
  pub nodes : List ModuleNode

pub data ProviderSlot : Type 0 where
  provider controller gateway microservice : ℕ → ProviderSlot

pub record ProviderRegistration : Type 0 where
  pub module_index : ℕ
  pub slot : ProviderSlot

-- `first, first + 1, …`, of the given length.
abbrev pub range : ℕ → ℕ → List ℕ
range first zero = []
range first (suc n) = first ∷ range (first + 1) n

abbrev pub registrations : ℕ → (ℕ → ProviderSlot) → ℕ → List ProviderRegistration
registrations index slot n = map (λ i. record { module_index = index; slot = slot i }) (range 0 n)

unfoldable pub node_definitions : ℕ → ModuleMetadata → List ProviderRegistration
node_definitions index m =
    registrations index provider (length m.providers)
    ++ (registrations index controller (length m.controllers)
        ++ (registrations index gateway (length m.gateways)
            ++ registrations index microservice (length m.microservices)))

unfoldable pub definitions_from : ℕ → List ModuleNode → List ProviderRegistration
unfolding node_definitions
definitions_from index [] = []
definitions_from index (node ∷ nodes) =
    node_definitions index node.metadata ++ definitions_from (index + 1) nodes

unfoldable pub definitions : ModuleGraph → List ProviderRegistration
unfolding definitions_from
definitions g = definitions_from 0 g.nodes

unfoldable pub controller_provider : Option ControllerDef → Option ProviderDef
controller_provider none = none
controller_provider (some c) = some c.provider

unfoldable pub gateway_provider : Option GatewayDef → Option ProviderDef
gateway_provider none = none
gateway_provider (some c) = some c.provider

unfoldable pub microservice_provider : Option MicroserviceDef → Option ProviderDef
microservice_provider none = none
microservice_provider (some c) = some c.provider

-- The slot of one module; `none` is an index out of bounds.
unfoldable pub slot_def : ModuleMetadata → ProviderSlot → Option ProviderDef
unfolding controller_provider gateway_provider microservice_provider
slot_def m (provider i) = get_elem? m.providers i
slot_def m (controller i) = controller_provider (get_elem? m.controllers i)
slot_def m (gateway i) = gateway_provider (get_elem? m.gateways i)
slot_def m (microservice i) = microservice_provider (get_elem? m.microservices i)

unfoldable pub node_def : Option ModuleNode → ProviderSlot → Option ProviderDef
node_def none slot = none
node_def (some node) slot = slot_def node.metadata slot

unfoldable pub def : ModuleGraph → ProviderRegistration → Option ProviderDef
unfolding slot_def node_def
def g r = node_def (get_elem? g.nodes r.module_index) r.slot

unfoldable pub types_of : ModuleGraph → ℕ → List ProviderRegistration → List ℕ
types_of g index [] = []
types_of g index (r ∷ rs) =
    let rest = types_of g index rs in
    if r.module_index == index
    then elim (def g r) [ none ↦ rest | some d ↦ d.type_id ∷ rest ]
    else rest

unfoldable pub local_types : ModuleGraph → ℕ → List ℕ
unfolding types_of definitions def
local_types g index = types_of g index (definitions g)

-- The name of a module in an error; the graph has the module.
abbrev pub module_name : ModuleGraph → ℕ → String
module_name g index = elim (get_elem? g.nodes index) [ none ↦ "" | some node ↦ node.type_name ]

-- `def_by_type`
unfoldable pub first_of_type : ModuleGraph → List ProviderRegistration → ℕ → Option ProviderDef
first_of_type g [] t = none
first_of_type g (r ∷ rs) t =
    let rest = first_of_type g rs t in
    elim (def g r) [ none ↦ rest | some d ↦ if d.type_id == t then some d else rest ]

unfoldable pub def_by_type : ModuleGraph → ℕ → Option ProviderDef
unfolding first_of_type definitions def
def_by_type g t = first_of_type g (definitions g) t
