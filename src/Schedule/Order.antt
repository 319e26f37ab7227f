-- ===== src/Schedule/Order.antt =====
-- crates/caelix-core/src/module.rs: the order that `schedule` leaves.
use caelix.Prelude.{
  ℕ, zero, suc, ◌≡◌, refl, sym, subst, ◌≢◌, ◌⊎◌, inl, inr, Option, none, some, List, [], ◌∷◌, arith,
  true, In, All, Option-cases, Bool-cases, ==_iff, ◌==◌,
}
use caelix.Errors.{Outcome, done, >>=-eq-done}
use caelix.Container.{ProviderDef, ProviderDependency, Container, update}
use caelix.Graph.{ModuleGraph, ProviderRegistration, def}
use caelix.Visibility.{TypeMap, effective}
use caelix.Schedule.{
  Mark, entered, finished, Walk, enter, leave, visit_dependencies, visit_def, schedule,
  schedule_all,
}
use caelix.Schedule.Sequence.{key, after, after-concat, key_of_def, Behind, Ordered, Ordered-concat}

pub update_self {ℓ} : {V : Type ℓ} (m : ℕ → Option V) (k : ℕ) (v : V) → update m k v k ≡ some v
update_self m k v = ground (arith, ==_iff k k)

pub update_ne {ℓ} : {V : Type ℓ} (m : ℕ → Option V) (k j : ℕ) (v : V) → k ≢ j → update m k v j ≡ m j
update_ne m k j v h = elim (Bool-cases (k == j)) [
  | inl e ↦ absurd (h ((==_iff k j).0 e))
  | inr e ↦ rw e
]

module _ (g : ModuleGraph) (c : Option Container) (by_type : TypeMap) where
  -- The types that have a provider.
  abbrev pub Known : ℕ → Type 0
  Known t = by_type t ≢ none

  -- The invariant of the walk: what is finished is what is sorted, in order.
  pub record IsSorted (w : Walk) : Type 0 where
    pub ordered : Ordered g c Known [] w.sorted
    pub listed : (t : ℕ) → w.states t ≡ some finished → In t (after g [] w.sorted)
    pub marked : (t : ℕ) → In t (after g [] w.sorted) → w.states t ≡ some finished

  abbrev pub Extends : Walk → Walk → Type 0
  Extends w w' = (t : ℕ) (m : Mark) → w.states t ≡ some m → w'.states t ≡ some m

  abbrev pub Finishes : List ProviderDependency → Walk → Type 0
  Finishes deps w =
      All (λ dep. by_type dep.type_id ≢ none → w.states dep.type_id ≡ some finished) deps

  -- `by_type` leads to registrations of the type.
  abbrev pub IsIndex : Type 0
  IsIndex =
      (t : ℕ) (r : ProviderRegistration)
      → by_type t ≡ some r
      → (d : ProviderDef) × (def g r ≡ some d) × (d.type_id ≡ t)

  -- A function that visits as `schedule` does.
  abbrev pub Visits : (ProviderRegistration → Walk → Outcome Walk) → Type 0
  Visits visit =
      (r : ProviderRegistration) (d : ProviderDef) (w w' : Walk)
      → def g r ≡ some d
      → IsSorted w
      → visit r w ≡ done w'
      → IsSorted w' × Extends w w' × (w'.states d.type_id ≡ some finished)

  Finishes-Extends :
      (deps : List ProviderDependency) (w w' : Walk)
      → Extends w w'
      → Finishes deps w
      → Finishes deps w'
  Finishes-Extends [] w w' e f = tt
  Finishes-Extends (dep ∷ deps) w w' e (h, f) =
      (λ p. e dep.type_id finished (h p), Finishes-Extends deps w w' e f)

  Finishes-Behind :
      (deps : List ProviderDependency) (w : Walk)
      → IsSorted w
      → Finishes deps w
      → Behind g c Known (after g [] w.sorted) deps
  Finishes-Behind [] w s f = tt
  Finishes-Behind (dep ∷ deps) w s (h, f) =
      (λ p. s.listed dep.type_id (h p), Finishes-Behind deps w s f)

  module _ (index : IsIndex) (visit : ProviderRegistration → Walk → Outcome Walk)
      (v : Visits visit) where
    pub visit_dependencies_sorts :
        (deps : List ProviderDependency) (w w' : Walk)
        → IsSorted w
        → visit_dependencies g c by_type visit deps w ≡ done w'
        → IsSorted w' × Extends w w' × Finishes deps w'
    unfolding visit_dependencies
    visit_dependencies_sorts [] w w' s e =
        let same : w ≡ w' = cc in
        (subst IsSorted same s, λ t m h. subst (λ u. u.states t ≡ some m) same h, tt)
    visit_dependencies_sorts (dep ∷ deps) w w' s e = elim (Option-cases (by_type dep.type_id)) [
      | inl absent ↦
          let (s', ext, fin) =
            visit_dependencies_sorts deps w w' s (rw (absent, visit_dependencies) at e) in
          (s', ext, (λ p. absurd (p absent), fin))
      | inr (next, found) ↦
          let (w1, e1, e2) =
            >>=-eq-done (visit next w) (visit_dependencies g c by_type visit deps)
              (rw (found, visit_dependencies) at e) in
          let (d, fd, td) = index dep.type_id next found in
          let (s1, ext1, fin1) = v next d w w1 fd s e1 in
          let (s', ext2, fin) = visit_dependencies_sorts deps w1 w' s1 e2 in
          (
            s',
            (λ t m h. ext2 t m (ext1 t m h)),
            (
              (λ _. ext2 dep.type_id finished (subst (λ t. w1.states t ≡ some finished) td fin1)),
              fin,
            ),
          )
    ]

    pub enter-IsSorted :
        (d : ProviderDef) (w : Walk) → w.states d.type_id ≡ none → IsSorted w → IsSorted (enter d w)
    enter-IsSorted d w none_yet s = record {
      ordered = s.ordered;
      listed = λ t h. elim (Bool-cases (d.type_id == t)) [
        | inl same ↦ cc (rw same at h)
        | inr other ↦ s.listed t (rw other at h)
      ];
      marked = λ t i. elim (Bool-cases (d.type_id == t)) [
        | inl same ↦ cc (s.marked t i, none_yet, (==_iff d.type_id t).0 same)
        | inr other ↦ rw other (s.marked t i)
      ];
    }

    leave_marked :
        (r : ProviderRegistration) (d : ProviderDef) (w : Walk) (t : ℕ)
        → def g r ≡ some d
        → IsSorted w
        → (t ≡ key g r) ⊎ In t (after g [] w.sorted)
        → (leave r d w).states t ≡ some finished
    leave_marked r d w t fd s (inl e) =
        let same : (d.type_id == t) ≡ true = (==_iff d.type_id t).1 (cc (e, key_of_def g r d fd)) in
        rw same
    leave_marked r d w t fd s (inr i) = elim (Bool-cases (d.type_id == t)) [
      | inl same ↦ rw same
      | inr other ↦ rw other (s.marked t i)
    ]

    -- `leave` after the dependencies have been visited.
    leave-IsSorted :
        (r : ProviderRegistration) (d : ProviderDef) (w : Walk)
        → def g r ≡ some d
        → w.states d.type_id ≡ some entered
        → Finishes (effective c d).dependencies w
        → IsSorted w
        → IsSorted (leave r d w)
    leave-IsSorted r d w fd open_yet fin s = record {
      ordered = Ordered-concat g c Known [] w.sorted r s.ordered (record {
        declared = d;
        found = fd;
        fresh = λ i. cc (s.marked d.type_id i, open_yet);
        behind = Finishes-Behind (effective c d).dependencies w s fin;
      });
      listed = λ t h.
          subst (In t) (sym (after-concat g [] w.sorted r)) (elim (Bool-cases (d.type_id == t)) [
            | inl same ↦ inl (cc ((==_iff d.type_id t).0 same, key_of_def g r d fd))
            | inr other ↦ inr (s.listed t (rw other at h))
          ]);
      marked = λ t i. leave_marked r d w t fd s (subst (In t) (after-concat g [] w.sorted r) i);
    }

    -- After the dependencies the walk leaves the definition.
    leave-Extends :
        (r : ProviderRegistration) (d : ProviderDef) (w w1 : Walk)
        → w.states d.type_id ≡ none
        → Extends (enter d w) w1
        → Extends w (leave r d w1)
    leave-Extends r d w w1 none_yet ext t m h = elim (Bool-cases (d.type_id == t)) [
      | inl same ↦ cc (h, none_yet, (==_iff d.type_id t).0 same)
      | inr other ↦ rw other (ext t m (rw other h))
    ]

    visit_def_sorts :
        (r : ProviderRegistration) (d : ProviderDef) (o : Option Mark) (w w' : Walk)
        → def g r ≡ some d
        → w.states d.type_id ≡ o
        → IsSorted w
        → visit_def g c by_type visit r d o w ≡ done w'
        → IsSorted w' × Extends w w' × (w'.states d.type_id ≡ some finished)
    unfolding visit_def
    visit_def_sorts r d (some finished) w w' fd st s e =
        let same : w ≡ w' = cc in
        (
          subst IsSorted same s,
          λ t m h. subst (λ u. u.states t ≡ some m) same h,
          subst (λ u. u.states d.type_id ≡ some finished) same st,
        )
    visit_def_sorts r d (some entered) w w' fd st s e = cc
    visit_def_sorts r d none w w' fd st s e =
        let deps = (effective c d).dependencies in
        let (w1, e1, e2) =
          >>=-eq-done (visit_dependencies g c by_type visit deps (enter d w))
            (λ u. done (leave r d u)) e in
        let (s1, ext1, fin1) =
          visit_dependencies_sorts deps (enter d w) w1 (enter-IsSorted d w st s) e1 in
        let same : leave r d w1 ≡ w' = cc e2 in
        let open_yet : w1.states d.type_id ≡ some entered =
          ext1 d.type_id entered (update_self w.states d.type_id entered) in
        (
          subst IsSorted same (leave-IsSorted r d w1 fd open_yet fin1 s1),
          λ t m h. subst (λ u. u.states t ≡ some m) same (leave-Extends r d w w1 st ext1 t m h),
          subst (λ u. u.states d.type_id ≡ some finished) same
              (update_self w1.states d.type_id finished),
        )

  module _ (index : IsIndex) where
    pub schedule_sorts :
        (fuel : ℕ) (r : ProviderRegistration) (d : ProviderDef) (w w' : Walk)
        → def g r ≡ some d
        → IsSorted w
        → schedule g c by_type fuel r w ≡ done w'
        → IsSorted w' × Extends w w' × (w'.states d.type_id ≡ some finished)
    unfolding schedule
    schedule_sorts zero r d w w' fd s e = cc
    schedule_sorts (suc fuel) r d w w' fd s e =
        visit_def_sorts index (schedule g c by_type fuel) (schedule_sorts fuel) r d
          (w.states d.type_id) w w' fd refl s (rw fd at e)

    -- Every registration of the list ends up in the order.
    abbrev pub Reaches : List ProviderRegistration → Walk → Type 0
    Reaches rs w = All (λ r. w.states (key g r) ≡ some finished) rs

    pub schedule_all_sorts :
        (fuel : ℕ) (rs : List ProviderRegistration) (w w' : Walk)
        → All (λ r. (d : ProviderDef) × (def g r ≡ some d)) rs
        → IsSorted w
        → schedule_all g c by_type fuel rs w ≡ done w'
        → IsSorted w' × Extends w w' × Reaches rs w'
    unfolding schedule_all
    schedule_all_sorts fuel [] w w' defs s e =
        let same : w ≡ w' = cc in
        (subst IsSorted same s, λ t m h. subst (λ u. u.states t ≡ some m) same h, tt)
    schedule_all_sorts fuel (r ∷ rs) w w' ((d, fd), defs) s e =
        let (w1, e1, e2) =
          >>=-eq-done (schedule g c by_type fuel r w) (schedule_all g c by_type fuel rs) e in
        let (s1, ext1, fin1) = schedule_sorts fuel r d w w1 fd s e1 in
        let (s', ext2, fin) = schedule_all_sorts fuel rs w1 w' defs s1 e2 in
        (
          s',
          (λ t m h. ext2 t m (ext1 t m h)),
          (
            (ext2 (key g r) finished
                (subst (λ t. w1.states t ≡ some finished) (sym (key_of_def g r d fd)) fin1)),
            fin,
          ),
        )
