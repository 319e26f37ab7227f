-- ===== src/Discovery/Marks.antt =====
-- crates/caelix-core/src/module.rs: the states of the modules, as `visit` of `discover_from` enters a
-- module and leaves it.
use caelix.Prelude.{
  ℕ, ◌≡◌, refl, sym, subst, ◌≢◌, inl, inr, Option, none, some, List, [], ◌∷◌, ◌++◌, ◌==◌, ==_iff,
  Bool-cases, In, In-append_left, In-append_right, In-append_cases, All, AllDistinct-concat,
}
use caelix.Container.{update}
use caelix.Metadata.{ModuleDef, ModuleMetadata}
use caelix.Schedule.{Mark, entered, finished}
use caelix.Schedule.Total.{update-Extends}
use caelix.Preflight.Guarantees.{All-map}
use caelix.Discovery.Imports.{Well}

-- A mark of another type than the one that is updated.
pub other_mark :
    (marks : ℕ → Option Mark) (k t : ℕ) (m n : Mark)
    → update marks k m t ≡ some n
    → m ≢ n
    → (k ≢ t) × (marks t ≡ some n)
other_mark marks k t m n e f = elim (Bool-cases (k == t)) [
  | inl same ↦ absurd (f (cc (rw same at e)))
  | inr other ↦ ((λ g. cc (other, (==_iff k t).1 g)), rw other at e)
]

pub entered-ne-finished : entered ≢ finished
entered-ne-finished e = cc e

module _ (metadata_of : ℕ → ModuleMetadata) (finish ts : List ℕ) (marks : ℕ → Option Mark)
    (s : Well metadata_of finish ts marks) (d : ModuleDef) where
  pub enter-Well :
      marks d.type_id ≡ none
      → Well metadata_of finish (ts ++ d.type_id ∷ []) (update marks d.type_id entered)
  enter-Well none_yet = record {
    distinct = AllDistinct-concat ts d.type_id s.distinct (λ i. s.marked d.type_id i none_yet);
    listed = λ t m e. elim (Bool-cases (d.type_id == t)) [
      | inl same ↦ In-append_right t ts (d.type_id ∷ []) (inl (sym ((==_iff d.type_id t).0 same)))
      | inr other ↦ In-append_left t ts (d.type_id ∷ []) (s.listed t m (rw other at e))
    ];
    marked = λ t i. elim (In-append_cases t ts (d.type_id ∷ []) i) [
      | inl j ↦ λ e. elim (Bool-cases (d.type_id == t)) [
        | inl same ↦ cc (rw same at e)
        | inr other ↦ s.marked t j (rw other at e)
      ]
      | inr (inl e) ↦ λ f. cc (rw ((==_iff d.type_id t).1 (sym e)) at f)
      | inr (inr j) ↦ absurd j
    ];
    sorted = s.sorted;
    finished_in = λ t e.
        s.finished_in t (other_mark marks d.type_id t entered finished e entered-ne-finished).1;
    in_finished =
        λ t i. update-Extends marks d.type_id entered none_yet t finished (s.in_finished t i);
  }

  pub leave-Well :
      marks d.type_id ≡ some entered
      → All (λ x. marks x.type_id ≡ some finished) (metadata_of d.type_id).imports
      → Well metadata_of (d.type_id ∷ finish) ts (update marks d.type_id finished)
  leave-Well unfinished all = record {
    distinct = s.distinct;
    listed = λ t m e. elim (Bool-cases (d.type_id == t)) [
      | inl same ↦
          s.listed t entered
            (subst (λ x. marks x ≡ some entered) ((==_iff d.type_id t).0 same) unfinished)
      | inr other ↦ s.listed t m (rw other at e)
    ];
    marked = λ t i e. elim (Bool-cases (d.type_id == t)) [
      | inl same ↦ cc (rw same at e)
      | inr other ↦ s.marked t i (rw other at e)
    ];
    sorted = (
      (λ i. cc (unfinished, s.in_finished d.type_id i)),
      All-map (λ x. marks x.type_id ≡ some finished) (λ x. In x.type_id finish)
          (λ x e. s.finished_in x.type_id e) (metadata_of d.type_id).imports all,
      s.sorted,
    );
    finished_in = λ t e. elim (Bool-cases (d.type_id == t)) [
      | inl same ↦ inl (sym ((==_iff d.type_id t).0 same))
      | inr other ↦ inr (s.finished_in t (rw other at e))
    ];
    in_finished = λ t i. elim (Bool-cases (d.type_id == t)) [
      | inl same ↦ rw same refl
      | inr other ↦ elim i [
        | inl e ↦ cc (rw ((==_iff d.type_id t).1 (sym e)) at other)
        | inr j ↦ rw other (s.in_finished t j)
      ]
    ];
  }
