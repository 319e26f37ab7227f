-- ===== src/Schedule/Total.antt =====
-- crates/caelix-core/src/module.rs: the walk of `schedule` returns. Each nested call marks one more
-- type of a finite universe, so the number of unmarked types bounds its depth.
use caelix.Prelude.{
  ℕ, zero, suc, ◌+◌, ◌≤◌, ◌<◌, ◌≡◌, refl, ◌≢◌, inl, inr, Option, none, some, List, [], ◌∷◌, arith,
  In, All, length, Option-cases, Bool-cases, ==_iff, ◌==◌, if◌then◌else◌, subst, sym,
}
use caelix.Errors.{Outcome, done, Returns, Returns-bind}
use caelix.Container.{ProviderDef, ProviderDependency, Container, update, has}
use caelix.Graph.{ModuleGraph, ProviderRegistration, def}
use caelix.Visibility.{TypeMap, effective}
use caelix.Schedule.{
  Mark, entered, finished, Walk, enter, leave, visit_dependencies, visit_def, schedule,
  schedule_all,
}
use caelix.Schedule.Order.{IsSorted, IsIndex, Visits, enter-IsSorted, schedule_sorts}

abbrev Marks : Type 0
Marks = ℕ → Option Mark

pub count_open : List ℕ → Marks → ℕ
count_open [] m = 0
count_open (t ∷ ts) m = (if has (m t) then 0 else 1) + count_open ts m

pub count_open-le :
    (u : List ℕ) (m m' : Marks)
    → ((t : ℕ) (k : Mark) → m t ≡ some k → m' t ≡ some k)
    → count_open u m' ≤ count_open u m
unfolding count_open
count_open-le [] m m' e = omega arith
count_open-le (t ∷ ts) m m' e = elim (Option-cases (m t)) [
  | inl open_yet ↦ rw open_yet (ground (arith, count_open-le ts m m' e))
  | inr (k, marked) ↦ rw (marked, e t k marked) (ground (arith, count_open-le ts m m' e))
]

pub update-Extends :
    (m : Marks) (t : ℕ) (k : Mark)
    → m t ≡ none
    → (j : ℕ) (i : Mark) → m j ≡ some i
    → update m t k j ≡ some i
update-Extends m t k none_yet j i h = elim (Bool-cases (t == j)) [
  | inl same ↦ cc (h, none_yet, (==_iff t j).0 same)
  | inr other ↦ rw other h
]

pub count_open-update :
    (u : List ℕ) (m : Marks) (t : ℕ) (k : Mark)
    → m t ≡ none
    → In t u
    → count_open u (update m t k) < count_open u m
unfolding count_open
count_open-update [] m t k none_yet i = elim i [ ]
count_open-update (x ∷ u) m t k none_yet (inl e) =
    let here : m x ≡ none = subst (λ y. m y ≡ none) e none_yet in
    rw ((==_iff t x).1 e, here)
      (ground (arith, count_open-le u m (update m t k) (update-Extends m t k none_yet)))
count_open-update (x ∷ u) m t k none_yet (inr i) = elim (Bool-cases (t == x)) [
  | inl same ↦
      let e : t ≡ x = (==_iff t x).0 same in
      let here : m x ≡ none = subst (λ y. m y ≡ none) e none_yet in
      rw (same, here) (ground (arith, count_open-update u m t k none_yet i))
  | inr other ↦ rw other (ground (arith, count_open-update u m t k none_yet i))
]

pub count_open-le-length : (u : List ℕ) (m : Marks) → count_open u m ≤ length u
unfolding count_open
count_open-le-length [] m = omega arith
count_open-le-length (t ∷ u) m = ground (arith, count_open-le-length u m)

module _ (g : ModuleGraph) (c : Option Container) (by_type : TypeMap) (index : IsIndex g c by_type)
    (u : List ℕ) (covered : (t : ℕ) → by_type t ≢ none → In t u) where
  -- A visit with fewer than `n` open types left returns.
  abbrev VisitReturns : ℕ → (ProviderRegistration → Walk → Outcome Walk) → Type 0
  VisitReturns n visit =
      (r : ProviderRegistration) (d : ProviderDef) (w : Walk)
      → def g r ≡ some d
      → In d.type_id u
      → IsSorted g c by_type w
      → count_open u w.states < n
      → Returns (visit r w)

  module _ (n : ℕ) (visit : ProviderRegistration → Walk → Outcome Walk)
      (v : Visits g c by_type visit) (returns : VisitReturns n visit) where
    visit_dependencies-Returns :
        (deps : List ProviderDependency) (w : Walk)
        → IsSorted g c by_type w
        → count_open u w.states < n
        → Returns (visit_dependencies g c by_type visit deps w)
    unfolding visit_dependencies
    visit_dependencies-Returns [] w s h = tt
    visit_dependencies-Returns (dep ∷ deps) w s h = elim (Option-cases (by_type dep.type_id)) [
      | inl absent ↦ rw (absent, visit_dependencies) (visit_dependencies-Returns deps w s h)
      | inr (next, found) ↦
          let (d, fd, td) = index dep.type_id next found in
          let known : In d.type_id u =
            subst (λ t. In t u) (sym td) (covered dep.type_id (λ e. cc (e, found))) in
          rw (found, visit_dependencies)
            (Returns-bind (visit next w) (visit_dependencies g c by_type visit deps)
              (returns next d w fd known s h)
              (λ w1 e1.
                let (s1, ext1, fin1) = v next d w w1 fd s e1 in
                visit_dependencies-Returns deps w1 s1
                  (omega (arith, count_open-le u w.states w1.states ext1))))
    ]

    visit_def-Returns :
        (r : ProviderRegistration) (d : ProviderDef) (o : Option Mark) (w : Walk)
        → w.states d.type_id ≡ o
        → In d.type_id u
        → IsSorted g c by_type w
        → count_open u w.states < suc n
        → Returns (visit_def g c by_type visit r d o w)
    unfolding visit_def
    visit_def-Returns r d (some finished) w st i s h = tt
    visit_def-Returns r d (some entered) w st i s h = tt
    visit_def-Returns r d none w st i s h =
        Returns-bind (visit_dependencies g c by_type visit (effective c d).dependencies (enter d w))
          (λ u. done (leave r d u))
          (visit_dependencies-Returns (effective c d).dependencies (enter d w)
            (enter-IsSorted g c by_type index visit v d w st s)
            (omega (arith, count_open-update u w.states d.type_id entered st i)))
          (λ w1 e1. tt)

  schedule_returns : (fuel : ℕ) → VisitReturns fuel (schedule g c by_type fuel)
  unfolding schedule
  schedule_returns zero r d w fd i s h = absurd (omega arith)
  schedule_returns (suc fuel) r d w fd i s h =
      rw (fd, schedule)
        (visit_def-Returns fuel (schedule g c by_type fuel) (schedule_sorts g c by_type index fuel)
          (schedule_returns fuel) r d (w.states d.type_id) w refl i s h)

  -- With more fuel than types the walk over a list of registrations returns.
  pub schedule_all-Returns :
      (fuel : ℕ) (rs : List ProviderRegistration) (w : Walk)
      → All (λ r. (d : ProviderDef) × (def g r ≡ some d) × In d.type_id u) rs
      → IsSorted g c by_type w
      → count_open u w.states < fuel
      → Returns (schedule_all g c by_type fuel rs w)
  unfolding schedule_all
  schedule_all-Returns fuel [] w defs s h = tt
  schedule_all-Returns fuel (r ∷ rs) w ((d, fd, i), defs) s h =
      Returns-bind (schedule g c by_type fuel r w) (schedule_all g c by_type fuel rs)
        (schedule_returns fuel r d w fd i s h)
        (λ w1 e1.
          let (s1, ext1, fin1) = schedule_sorts g c by_type index fuel r d w w1 fd s e1 in
          schedule_all-Returns fuel rs w1 defs s1
            (omega (arith, count_open-le u w.states w1.states ext1)))
