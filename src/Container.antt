-- ===== src/Container.antt =====
-- crates/caelix-core/src/container.rs, and the provider definitions of module.rs.
-- A `TypeId` is a number; `Logger` and `EventBus` have the numbers 0 and 1. A value behind
-- `Arc<dyn Any>` is its dynamic type and an identity. User code (constructors, factories, hooks) is
-- a function in a `ProviderDef`.
use caelix.Prelude.{
  ℕ, String, Bool, true, false, ◌||◌, Option, none, some, List, [], ◌∷◌, ◌++◌, map, ◌==◌,
  if◌then◌else◌,
}
use caelix.Errors.{
  undeclared_resolve, not_registered, wrong_type, unused_overrides, Outcome, done, fail,
  startup_error,
}

abbrev pub logger_type : ℕ
logger_type = 0

abbrev pub event_bus_type : ℕ
event_bus_type = 1

-- Maps and sets that the program only looks up in: functions, and lists by membership.
abbrev pub update {ℓ} : {V : Type ℓ} → (ℕ → Option V) → ℕ → V → ℕ → Option V
update m k v j = if k == j then some v else m j

abbrev pub contains : List ℕ → ℕ → Bool
contains [] t = false
contains (x ∷ xs) t = x == t || contains xs t

abbrev pub has {ℓ} : {V : Type ℓ} → Option V → Bool
has none = false
has (some v) = true

pub record ProviderValue : Type 0 where
  pub value_type : ℕ
  pub identity : ℕ

pub record ProviderDependency : Type 0 where
  pub type_id : ℕ
  pub type_name : String

pub record DependencyScope : Type 0 where
  pub provider_type_name : String
  pub allowed_type_ids : List ℕ

-- What a provider's constructor sees of a container: a clone carries no pending overrides.
pub record Scoped : Type 0 where
  pub services : ℕ → Option ProviderValue
  pub dependency_scope : Option DependencyScope

pub record ProviderDef : Type 0 where
  pub type_id : ℕ
  pub type_name : String
  pub dependencies : List ProviderDependency
  pub build : Scoped → Outcome ProviderValue
  pub init_fn : ProviderValue → Outcome (Unit {0})
  pub bootstrap_fn : ProviderValue → Outcome (Unit {0})
  pub shutdown_fn : ProviderValue → Outcome (Unit {0})

pub record Container : Type 0 where
  pub services : ℕ → Option ProviderValue
  pub pending_overrides : List (ℕ × ProviderDef)
  pub applied_overrides : List ℕ
  pub declared_provider_types : List ℕ
  pub initialized_providers : List ℕ
  pub bootstrapped_providers : List ℕ

-- The logger's own value has identity 0.
abbrev pub new : Container
new = record {
  services = update (λ _. none) logger_type (record { value_type = logger_type; identity = 0 });
  pending_overrides = [];
  applied_overrides = [];
  declared_provider_types = [];
  initialized_providers = [];
  bootstrapped_providers = [];
}

abbrev pub register_erased : Container → ℕ → ProviderValue → Container
register_erased c type_id value = record c { services = update c.services type_id value }

-- `register_instance`; the type is that of the value.
abbrev pub register_instance : Container → ProviderValue → Container
register_instance c value = register_erased c value.value_type value

abbrev pub resolve_erased : Container → ℕ → Option ProviderValue
resolve_erased c type_id = c.services type_id

abbrev pub contains_type_id : Container → ℕ → Bool
contains_type_id c type_id = has (c.services type_id)

abbrev pub find_override : List (ℕ × ProviderDef) → ℕ → Option ProviderDef
find_override [] t = none
find_override ((k, d) ∷ m) t = if k == t then some d else find_override m t

abbrev pub remove_override : List (ℕ × ProviderDef) → ℕ → List (ℕ × ProviderDef)
remove_override [] t = []
remove_override ((k, d) ∷ m) t =
    let rest = remove_override m t in if k == t then rest else (k, d) ∷ rest

abbrev pub pending_override : Container → ℕ → Option ProviderDef
pending_override c type_id = find_override c.pending_overrides type_id

abbrev pub has_pending_override : Container → ℕ → Bool
has_pending_override c type_id = has (pending_override c type_id)

-- `take_pending_override` returns `pending_override` and leaves this.
abbrev pub drop_pending_override : Container → ℕ → Container
drop_pending_override c type_id = record c {
  pending_overrides = remove_override c.pending_overrides type_id;
}

abbrev pub mark_override_applied : Container → ℕ → Container
mark_override_applied c type_id = record c { applied_overrides = type_id ∷ c.applied_overrides }

abbrev pub was_overridden : Container → ℕ → Bool
was_overridden c type_id = contains c.applied_overrides type_id

abbrev pub mark_provider_declared : Container → ℕ → Container
mark_provider_declared c type_id = record c {
  declared_provider_types = type_id ∷ c.declared_provider_types;
}

-- The inserted type, and whether it is new.
abbrev pub begin_provider_bootstrap : Container → ℕ → Container × Bool
begin_provider_bootstrap c type_id =
    if contains c.bootstrapped_providers type_id
    then (c, false)
    else (record c { bootstrapped_providers = type_id ∷ c.bootstrapped_providers }, true)

abbrev pub record_initialized_provider : Container → ℕ → Container
record_initialized_provider c type_id = record c {
  initialized_providers = c.initialized_providers ++ type_id ∷ [];
}

abbrev pub take_initialized_providers : Container → Container × List ℕ
take_initialized_providers c = (record c { initialized_providers = [] }, c.initialized_providers)

abbrev pub dependency_type : ProviderDependency → ℕ
dependency_type d = d.type_id

abbrev pub scoped_for_provider : Container → String → List ProviderDependency → Scoped
scoped_for_provider c name deps = record {
  services = c.services;
  dependency_scope =
      some (record { provider_type_name = name; allowed_type_ids = map dependency_type deps });
}

abbrev pub allowed : Option DependencyScope → ℕ → Bool
allowed none t = true
allowed (some scope) t = t == logger_type || contains scope.allowed_type_ids t

abbrev scope_name : Option DependencyScope → String
scope_name none = ""
scope_name (some scope) = scope.provider_type_name

abbrev downcast : String → ℕ → Option ProviderValue → Outcome ProviderValue
downcast name t none = fail (startup_error (not_registered name))
downcast name t (some v) =
    if v.value_type == t then done v else fail (startup_error (wrong_type name))

-- `resolve::<T>`, where `name` is the type's name.
unfoldable pub resolve : Scoped → ℕ → String → Outcome ProviderValue
resolve c t name =
    if allowed c.dependency_scope t
    then downcast name t (c.services t)
    else fail (startup_error (undeclared_resolve (scope_name c.dependency_scope) name))

-- The source sorts the names.
unfoldable pub assert_no_unused_overrides : Container → Outcome (Unit {0})
assert_no_unused_overrides c = elim c.pending_overrides [
  | [] ↦ done tt
  | (k, d) ∷ m ↦ fail (startup_error (unused_overrides (d.type_name ∷ map (λ e. e.1.type_name) m)))
]
