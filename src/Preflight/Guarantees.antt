-- ===== src/Preflight/Guarantees.antt =====
-- crates/caelix-core/src/module.rs: what `preflight` guarantees of a graph that it accepts, and that
-- it always returns.
use caelix.Prelude.{
  length_of_get_elem?, ℕ, suc, ◌<◌, ◌≡◌, refl, sym, subst, ◌∙◌, ◌≢◌, ◌⊎◌, inl, inr, Bool, true,
  false, not, Option, none, some, List, [], ◌∷◌, map, arith, length, get_elem?, All, In, ==_iff,
  ◌==◌, Bool-cases, Option-cases,
}
use caelix.Errors.{Outcome, done, >>=-eq-done, fail_if-eq-done}
use caelix.Container.{ProviderDef, ProviderDependency, Container, has, logger_type}
use caelix.Graph.{ModuleGraph, ProviderRegistration, definitions, def}
use caelix.Graph.Definitions.{HasDef, definitions-HasDef}
use caelix.Visibility.{
  TypeMap, visible, effective, present, each, check_dependency, check_registration,
}
use caelix.Visibility.Types.{Collected, collect_types-Collected, Unique, collect_types-Unique}
use caelix.Visibility.Reference.{visible_in}
use caelix.Schedule.{start}
use caelix.Schedule.Sequence.{key, after, Ordered, Ordered-mono}
use caelix.Schedule.Order.{IsSorted, Known, Reaches, schedule_all_sorts}
use caelix.Preflight.{preflight}
use caelix.Preflight.Steps.{
  Steps, preflight-Steps, AreScopes, scopes_of-AreScopes, visible-eq-visible_in,
}

-- The types that some module of the graph provides.
abbrev pub provided : ModuleGraph → List ℕ
provided g = map (key g) (definitions g)

-- Checks over a list.
pub each-All {ℓ} :
    {A : Type ℓ} (check : A → Outcome (Unit {0})) (xs : List A)
    → each check xs ≡ done tt
    → All (λ x. check x ≡ done tt) xs
unfolding each
each-All check [] e = tt
each-All check (x ∷ xs) e =
    let (u, e1, e2) = >>=-eq-done (check x) (λ _. each check xs) e in (e1, each-All check xs e2)

pub All-map {ℓ κ μ} :
    {A : Type ℓ} (P : A → Type κ) (Q : A → Type μ)
    → ((a : A) → P a → Q a)
    → (xs : List A) → All P xs
    → All Q xs
All-map P Q f [] h = tt
All-map P Q f (x ∷ xs) (p, h) = (f x p, All-map P Q f xs h)

pub All-In : {A : Type 0} (P : A → Type 0) (xs : List A) (x : A) → All P xs → In x xs → P x
All-In P [] x h i = elim i [ ]
All-In P (y ∷ xs) x (p, h) (inl e) = subst P (sym e) p
All-In P (y ∷ xs) x (p, h) (inr i) = All-In P xs x h i

In-map :
    {A : Type 0} (f : A → ℕ) (xs : List A) (P : ℕ → Type 0)
    → All (λ x. P (f x)) xs
    → (t : ℕ) → In t (map f xs)
    → P t
In-map f [] P h t i = elim i [ ]
In-map f (x ∷ xs) P (p, h) t (inl e) = subst P (sym e) p
In-map f (x ∷ xs) P (p, h) t (inr i) = In-map f xs P h t i

module _ (g : ModuleGraph) (c : Option Container) where
  pub start-IsSorted : (by_type : TypeMap) → IsSorted g c by_type start
  start-IsSorted by_type = record { ordered = tt; listed = λ t h. cc h; marked = λ t i. elim i [ ] }

  module _ (order : List ProviderRegistration) (s : Steps g c order) where
    types-Collected : Collected g c (λ _. none) s.by_type (definitions g)
    types-Collected =
        collect_types-Collected g c (λ _. none) s.by_type (definitions g) (definitions-HasDef g)
          (λ t r h. cc h) s.typed

    Known-provided : (t : ℕ) → Known g c s.by_type t → In t (provided g)
    Known-provided t h = elim (types-Collected.sound t h) [
      | inl old ↦ absurd (old refl)
      | inr i ↦ i
    ]

    provided-Known : (t : ℕ) → In t (provided g) → Known g c s.by_type t
    provided-Known = In-map (key g) (definitions g) (Known g c s.by_type) types-Collected.covers

    scheduled :
        IsSorted g c s.by_type s.walk
        × Reaches g c s.by_type types-Collected.index (definitions g) s.walk
    scheduled =
        let (a, b, d) =
          schedule_all_sorts g c s.by_type types-Collected.index (suc (length (definitions g)))
            (definitions g) start s.walk (definitions-HasDef g) (start-IsSorted s.by_type)
            s.scheduled in
        (a, d)

pub def-module_index :
    (g : ModuleGraph) (r : ProviderRegistration) (d : ProviderDef)
    → def g r ≡ some d
    → r.module_index < length g.nodes
unfolding def
def-module_index g r d fd = elim (Option-cases (get_elem? g.nodes r.module_index)) [
  | inl absent ↦ cc (rw absent at fd)
  | inr (node, found) ↦ length_of_get_elem? g.nodes r.module_index node found
]

-- What may stand among the dependencies of a provider that is built in module `index`.
abbrev pub DependencyOk : ModuleGraph → Option Container → ℕ → ProviderDependency → Type 0
DependencyOk g c index dep =
    (dep.type_id ≡ logger_type)
    ⊎ (((In dep.type_id (provided g)) × (visible_in g index dep.type_id ≡ true))
        ⊎ ((In dep.type_id (provided g) → ⊥) × (present c dep.type_id ≡ true)))

has-eq-true {ℓ} : {A : Type ℓ} (o : Option A) → has o ≡ true → o ≢ none
has-eq-true none h = cc
has-eq-true (some a) h = λ e. cc e

has-eq-false {ℓ} : {A : Type ℓ} (o : Option A) → has o ≡ false → o ≡ none
has-eq-false none h = refl
has-eq-false (some a) h = cc

not-eq-false : (a : Bool) → not a ≡ false → a ≡ true
not-eq-false a h = ground arith

module _ (g : ModuleGraph) (c : Option Container) (order : List ProviderRegistration)
    (st : Steps g c order) where
  scopes : AreScopes g st.scopes
  scopes = scopes_of-AreScopes g st.scopes st.scoped

  check_dependency-Ok :
      (r : ProviderRegistration) (eff : ProviderDef) (dep : ProviderDependency)
      → r.module_index < length g.nodes
      → check_dependency g c st.by_type st.scopes r eff dep ≡ done tt
      → DependencyOk g c r.module_index dep
  unfolding check_dependency
  check_dependency-Ok r eff dep h e = elim (Bool-cases (dep.type_id == logger_type)) [
    | inl logger ↦ inl ((==_iff dep.type_id logger_type).0 logger)
    | inr other ↦ elim (Bool-cases (has (st.by_type dep.type_id))) [
      | inl known ↦
          let (seen, e1, e2) =
            >>=-eq-done (visible g st.scopes r.module_index dep.type_id) _
              (rw (other, known) at e) in
          inr (
            inl (
              Known-provided g c order st dep.type_id (has-eq-true _ known),
              visible-eq-visible_in g st.scopes r.module_index dep.type_id scopes h e1
                  ∙ not-eq-false seen (fail_if-eq-done _ _ e2),
            ))
      | inr unknown ↦ inr (
          inr (
            (λ i. provided-Known g c order st dep.type_id i (has-eq-false _ unknown)),
            not-eq-false _ (fail_if-eq-done _ _ (rw (other, unknown) at e)),
          ))
    ]
  ]

  abbrev RegistrationOk : ProviderRegistration → Type 0
  RegistrationOk r =
      (d : ProviderDef) × (def g r ≡ some d)
      × All (DependencyOk g c r.module_index) (effective c d).dependencies

  check_registration-Ok :
      (r : ProviderRegistration)
      → HasDef g r
      → check_registration g c st.by_type st.scopes r ≡ done tt
      → RegistrationOk r
  unfolding check_registration
  check_registration-Ok r (d, fd) e =
      let eff = effective c d in
      (
        d,
        fd,
        All-map (λ dep. check_dependency g c st.by_type st.scopes r eff dep ≡ done tt)
            (DependencyOk g c r.module_index)
            (λ dep k. check_dependency-Ok r eff dep (def-module_index g r d fd) k) eff.dependencies
            (each-All (check_dependency g c st.by_type st.scopes r eff) eff.dependencies
              (rw (fd, check_registration) at e)),
      )

  All-both :
      (rs : List ProviderRegistration)
      → All (HasDef g) rs
      → All (λ r. check_registration g c st.by_type st.scopes r ≡ done tt) rs
      → All RegistrationOk rs
  All-both [] h k = tt
  All-both (r ∷ rs) (h, hs) (k, ks) = (check_registration-Ok r h k, All-both rs hs ks)

  registrations-Ok : All RegistrationOk (definitions g)
  registrations-Ok =
      All-both (definitions g) (definitions-HasDef g)
        (each-All (check_registration g c st.by_type st.scopes) (definitions g) st.checked)

-- In the order that `preflight` returns, every provider stands once and behind all of its effective
-- dependencies that the graph provides; and every type that the graph provides is there.
pub preflight-Ordered :
    (g : ModuleGraph) (c : Option Container) (order : List ProviderRegistration)
    → preflight g c ≡ done order
    → Ordered g c (λ t. In t (provided g)) [] order
      × All (λ r. In (key g r) (after g [] order)) (definitions g)
preflight-Ordered g c order e =
    let st = preflight-Steps g c order e in
    let (sorted, reached) = scheduled g c order st in
    (
      subst (Ordered g c (λ t. In t (provided g)) []) st.sorted
          (Ordered-mono g c (provided-Known g c order st) [] st.walk.sorted sorted.ordered),
      subst (λ o. All (λ r. In (key g r) (after g [] o)) (definitions g)) st.sorted
          (All-map _ (λ r. In (key g r) (after g [] st.walk.sorted))
            (λ r h. sorted.listed (key g r) h) (definitions g) reached),
    )

-- Each effective dependency of each provider that `preflight` accepts is the logger, or is provided
-- by the graph and visible in the provider's module, or is not provided and present in the container.
pub preflight_visibility :
    (g : ModuleGraph) (c : Option Container) (order : List ProviderRegistration)
    → preflight g c ≡ done order
    → All
        (λ r.
          (d : ProviderDef) × (def g r ≡ some d)
          × All (DependencyOk g c r.module_index) (effective c d).dependencies)
        (definitions g)
preflight_visibility g c order e = registrations-Ok g c order (preflight-Steps g c order e)

-- A type has two registrations in an accepted graph only where an override replaces it.
pub preflight-Unique :
    (g : ModuleGraph) (c : Option Container) (order : List ProviderRegistration)
    → preflight g c ≡ done order
    → Unique g c (definitions g)
preflight-Unique g c order e =
    let st = preflight-Steps g c order e in
    collect_types-Unique g c (λ _. none) st.by_type (definitions g) (definitions-HasDef g) st.typed
