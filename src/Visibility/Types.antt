-- ===== src/Visibility/Types.antt =====
-- crates/caelix-core/src/module.rs: the map from types to registrations that `preflight` builds.
use caelix.Prelude.{
  ℕ, ◌≡◌, refl, sym, subst, ◌∙◌, ◌≢◌, ◌⊎◌, inl, inr, true, Option, none, some, List, [], ◌∷◌, map,
  In, All, Bool-cases, ==_iff, ◌==◌,
}
use caelix.Errors.{done, Returns, Returns-bind, >>=-eq-done}
use caelix.Container.{ProviderDef, Container, update}
use caelix.Graph.{ModuleGraph, ProviderRegistration, def}
use caelix.Graph.Definitions.{HasDef}
use caelix.Visibility.{TypeMap, is_overridden, check_duplicate, collect_types}
use caelix.Schedule.Sequence.{key, key_of_def}
use caelix.Schedule.Order.{IsIndex, update_self}

module _ (g : ModuleGraph) (c : Option Container) where
  update-IsIndex :
      (m : TypeMap) (r : ProviderRegistration) (d : ProviderDef)
      → def g r ≡ some d
      → IsIndex g c m
      → IsIndex g c (update m d.type_id r)
  update-IsIndex m r d fd index t q h = elim (Bool-cases (d.type_id == t)) [
    | inl same ↦
        let e : r ≡ q = cc (rw same at h) in
        (d, subst (λ p. def g p ≡ some d) e fd, (==_iff d.type_id t).0 same)
    | inr other ↦ index t q (rw other at h)
  ]

  update-ne-none :
      (m : TypeMap) (r : ProviderRegistration) (k t : ℕ) → m t ≢ none → update m k r t ≢ none
  update-ne-none m r k t h = elim (Bool-cases (k == t)) [
    | inl same ↦ rw same (λ e. cc e)
    | inr other ↦ rw other h
  ]

  update-ne-none_cases :
      (m : TypeMap) (r : ProviderRegistration) (k t : ℕ)
      → update m k r t ≢ none
      → (m t ≢ none) ⊎ (t ≡ k)
  update-ne-none_cases m r k t h = elim (Bool-cases (k == t)) [
    | inl same ↦ inr (sym ((==_iff k t).0 same))
    | inr other ↦ inl (rw other at h)
  ]

  -- What the built map knows.
  pub record Collected (m m' : TypeMap) (rs : List ProviderRegistration) : Type 0 where
    pub index : IsIndex g c m'
    pub kept : (t : ℕ) → m t ≢ none → m' t ≢ none
    pub covers : All (λ r. m' (key g r) ≢ none) rs
    pub sound : (t : ℕ) → m' t ≢ none → (m t ≢ none) ⊎ In t (map (key g) rs)

  pub collect_types-Collected :
      (m m' : TypeMap) (rs : List ProviderRegistration)
      → All (HasDef g) rs
      → IsIndex g c m
      → collect_types g c m rs ≡ done m'
      → Collected m m' rs
  unfolding collect_types
  collect_types-Collected m m' [] defs i e =
      let same : m ≡ m' = cc in
      record {
        index = subst (IsIndex g c) same i;
        kept = λ t h. subst (λ (n : TypeMap). n t ≢ none) same h;
        covers = tt;
        sound = λ t h. inl (subst (λ (n : TypeMap). n t ≢ none) (sym same) h);
      }
  collect_types-Collected m m' (r ∷ rs) ((d, fd), defs) i e =
      let m1 = update m d.type_id r in
      let (u, e1, e2) =
        >>=-eq-done (check_duplicate g c d r (m d.type_id)) (λ _. collect_types g c m1 rs)
          (rw (fd, collect_types) at e) in
      let rest = collect_types-Collected m1 m' rs defs (update-IsIndex m r d fd i) e2 in
      let here : m1 (key g r) ≢ none =
        λ h. cc (h, update_self m d.type_id r, key_of_def g r d fd) in
      record {
        index = rest.index;
        kept = λ t h. rest.kept t (update-ne-none m r d.type_id t h);
        covers = (rest.kept (key g r) here, rest.covers);
        sound = λ t h. elim (rest.sound t h) [
          | inl old ↦ elim (update-ne-none_cases m r d.type_id t old) [
            | inl o ↦ inl o
            | inr e ↦ inr (inl (e ∙ sym (key_of_def g r d fd)))
          ]
          | inr later ↦ inr (inr later)
        ];
      }

  check_duplicate-Returns :
      (d : ProviderDef) (r : ProviderRegistration) (o : Option ProviderRegistration)
      → Returns (check_duplicate g c d r o)
  check_duplicate-Returns d r none = tt
  check_duplicate-Returns d r (some q) = elim (Bool-cases (is_overridden c d.type_id)) [
    | inl yes_it ↦ rw yes_it tt
    | inr no_it ↦ rw no_it tt
  ]

  pub collect_types-Returns :
      (m : TypeMap) (rs : List ProviderRegistration)
      → All (HasDef g) rs
      → Returns (collect_types g c m rs)
  unfolding collect_types
  collect_types-Returns m [] defs = tt
  collect_types-Returns m (r ∷ rs) ((d, fd), defs) =
      rw (fd, collect_types)
        (Returns-bind (check_duplicate g c d r (m d.type_id))
          (λ _. collect_types g c (update m d.type_id r) rs)
          (check_duplicate-Returns d r (m d.type_id))
          (λ u e. collect_types-Returns (update m d.type_id r) rs defs))

  -- Registrations of one type, of which there is more than one only where it is overridden.
  abbrev pub Single : ℕ → List ProviderRegistration → Type 0
  Single t rs = All (λ q. key g q ≡ t → is_overridden c t ≡ true) rs

  abbrev pub Unique : List ProviderRegistration → Type 0
  Unique [] = Unit
  Unique (r ∷ rs) = Single (key g r) rs × Unique rs

  check_duplicate-overridden :
      (d : ProviderDef) (r : ProviderRegistration) (o : Option ProviderRegistration) {u : Unit {0}}
      → check_duplicate g c d r o ≡ done u
      → o ≢ none
      → is_overridden c d.type_id ≡ true
  check_duplicate-overridden d r none e h = absurd (h refl)
  check_duplicate-overridden d r (some q) e h = elim (Bool-cases (is_overridden c d.type_id)) [
    | inl yes_it ↦ yes_it
    | inr no_it ↦ cc (rw no_it at e)
  ]

  collect_types-Single :
      (m m' : TypeMap) (rs : List ProviderRegistration) (t : ℕ)
      → All (HasDef g) rs
      → m t ≢ none
      → collect_types g c m rs ≡ done m'
      → Single t rs
  unfolding collect_types
  collect_types-Single m m' [] t defs h e = tt
  collect_types-Single m m' (r ∷ rs) t ((d, fd), defs) h e =
      let m1 = update m d.type_id r in
      let (u, e1, e2) =
        >>=-eq-done (check_duplicate g c d r (m d.type_id)) (λ _. collect_types g c m1 rs)
          (rw (fd, collect_types) at e) in
      (
        (λ k.
            let same : t ≡ d.type_id = sym k ∙ key_of_def g r d fd in
            subst (λ j. is_overridden c j ≡ true) (sym same)
              (check_duplicate-overridden d r (m d.type_id) e1 (subst (λ j. m j ≢ none) same h))),
        collect_types-Single m1 m' rs t defs (update-ne-none m r d.type_id t h) e2,
      )

  pub collect_types-Unique :
      (m m' : TypeMap) (rs : List ProviderRegistration)
      → All (HasDef g) rs
      → collect_types g c m rs ≡ done m'
      → Unique rs
  unfolding collect_types
  collect_types-Unique m m' [] defs e = tt
  collect_types-Unique m m' (r ∷ rs) ((d, fd), defs) e =
      let m1 = update m d.type_id r in
      let (u, e1, e2) =
        >>=-eq-done (check_duplicate g c d r (m d.type_id)) (λ _. collect_types g c m1 rs)
          (rw (fd, collect_types) at e) in
      let here : m1 (key g r) ≢ none =
        λ h. cc (h, update_self m d.type_id r, key_of_def g r d fd) in
      (collect_types-Single m1 m' rs (key g r) defs here e2, collect_types-Unique m1 m' rs defs e2)
