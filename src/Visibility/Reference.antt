-- ===== src/Visibility/Reference.antt =====
-- crates/caelix-core/src/module.rs: the rule of visibility that the documentation states, read off
-- the modules' declarations, and its agreement with the sets that `preflight` computes.
use caelix.Prelude.{
  ℕ, zero, suc, ◌+◌, ◌≤◌, ◌<◌, ◌≡◌, refl, sym, ap, ◌∙◌, inl, inr, Bool, false, ◌&&◌, ◌||◌, Option,
  none, some, List, [], ◌∷◌, ◌++◌, map, arith, ◌==◌, ==_iff, length, get_elem?, Bool-cases,
}
use caelix.Container.{contains}
use caelix.Graph.{ModuleNode, ModuleGraph, range, local_types}
use caelix.Errors.{done, at_index, >>=-eq-done, ◌>>=◌, Returns, Returns-bind}
use caelix.Visibility.{global_exports}
use caelix.Visibility.Sets.{
  member, in_set, any_in_set, imports_of, at_index-member, at_index-Returns,
}
use caelix.Visibility.Exports.{export_types, exported_from}

abbrev pub export_by : Option ModuleNode → ℕ → Bool
export_by none t = false
export_by (some node) t = contains (export_types node) t

-- The module at an index exports a type.
abbrev pub exported : ModuleGraph → ℕ → ℕ → Bool
exported g index t = export_by (get_elem? g.nodes index) t

abbrev pub any_exported : ModuleGraph → List ℕ → ℕ → Bool
any_exported g [] t = false
any_exported g (child ∷ children) t = exported g child t || any_exported g children t

abbrev pub globally_exported : List ModuleNode → ℕ → Bool
globally_exported [] t = false
globally_exported (node ∷ nodes) t =
    (node.metadata.global && contains (export_types node) t) || globally_exported nodes t

-- A module sees its own providers, the exports of global modules and those of its direct imports.
abbrev pub visible_in : ModuleGraph → ℕ → ℕ → Bool
visible_in g index t =
    contains (local_types g index) t
    || (globally_exported g.nodes t || any_exported g (imports_of g index) t)

exported_from_below :
    (nodes : List ModuleNode) (index j t : ℕ) → j < index → exported_from index nodes j t ≡ false
exported_from_below [] index j t h = refl
exported_from_below (node ∷ nodes) index j t h = elim (Bool-cases (j == index)) [
  | inl same ↦ absurd (omega (arith, (==_iff j index).0 same))
  | inr other ↦ rw other (exported_from_below nodes (index + 1) j t (omega arith))
]

exported_from_at :
    (nodes : List ModuleNode) (index j k t : ℕ)
    → j ≡ index + k
    → exported_from index nodes j t ≡ export_by (get_elem? nodes k) t
exported_from_at [] index j k t e = refl
exported_from_at (node ∷ nodes) index j zero t e =
    rw ((==_iff j index).1 (omega arith), exported_from_below nodes (index + 1) j t (omega arith))
      (ground arith)
exported_from_at (node ∷ nodes) index j (suc k) t e = elim (Bool-cases (j == index)) [
  | inl same ↦ absurd (omega (arith, (==_iff j index).0 same))
  | inr other ↦ rw other (exported_from_at nodes (index + 1) j k t (omega arith))
]

pub exported_from-eq-exported :
    (g : ModuleGraph) (j t : ℕ) → exported_from 0 g.nodes j t ≡ exported g j t
exported_from-eq-exported g j t = exported_from_at g.nodes 0 j j t (omega arith)

contains-append :
    (xs ys : List ℕ) (t : ℕ) → contains (xs ++ ys) t ≡ (contains xs t || contains ys t)
contains-append [] ys t = refl
contains-append (x ∷ xs) ys t = rw (contains-append xs ys t) (ground arith)

pub contains-global_exports :
    (sets : List (List ℕ)) (index : ℕ) (nodes : List ModuleNode) (t : ℕ) (all : List ℕ)
    → ((k : ℕ) → in_set sets (index + k) t ≡ export_by (get_elem? nodes k) t)
    → global_exports sets index nodes ≡ done all
    → contains all t ≡ globally_exported nodes t
unfolding global_exports
contains-global_exports sets index [] t all h e =
    let same : [] ≡ all = cc e in ap (λ l. contains l t) (sym same)
contains-global_exports sets index (node ∷ nodes) t all h e =
    let next : (k : ℕ) → in_set sets (index + 1 + k) t ≡ export_by (get_elem? nodes k) t = λ k.
      let e : index + 1 + k ≡ index + suc k = omega arith in
      ap (λ i. in_set sets i t) e ∙ h (suc k) in
    let e0 : index + 0 ≡ index = omega arith in
    let here : in_set sets index t ≡ contains (export_types node) t =
      ap (λ i. in_set sets i t) (sym e0) ∙ h 0 in
    elim (Bool-cases node.metadata.global) [
      | inl global ↦
          let (s, e1, r1) =
            >>=-eq-done (at_index (get_elem? sets index))
              (λ s. global_exports sets (index + 1) nodes >>= λ r. done (s ++ r))
              (rw (global, global_exports) at e) in
          let (rest, e2, r2) =
            >>=-eq-done (global_exports sets (index + 1) nodes) (λ r. done (s ++ r)) r1 in
          let same : s ++ rest ≡ all = cc r2 in
          rw (
            global,
            ← same,
            contains-append s rest t,
            ← at_index-member (get_elem? sets index) t e1,
            here,
            contains-global_exports sets (index + 1) nodes t rest next e2,
          )
      | inr local ↦ rw local (
          contains-global_exports sets (index + 1) nodes t all next
            (rw (local, global_exports) at e))
    ]

pub global_exports-Returns :
    (sets : List (List ℕ)) (index : ℕ) (nodes : List ModuleNode)
    → index + length nodes ≤ length sets
    → Returns (global_exports sets index nodes)
unfolding global_exports
global_exports-Returns sets index [] h = tt
global_exports-Returns sets index (node ∷ nodes) h =
    let ih = global_exports-Returns sets (index + 1) nodes (omega arith) in
    elim (Bool-cases node.metadata.global) [
      | inl global ↦ rw global (
          Returns-bind (at_index (get_elem? sets index)) _
            (at_index-Returns sets index (omega arith))
            (λ s e.
              Returns-bind (global_exports sets (index + 1) nodes) (λ r. done (s ++ r)) ih
                (λ r e2. tt)))
      | inr local ↦ rw local ih
    ]

pub any_in_set-eq-any_exported :
    (g : ModuleGraph) (sets : List (List ℕ)) (children : List ℕ) (t : ℕ)
    → ((j : ℕ) → in_set sets j t ≡ exported g j t)
    → any_in_set sets children t ≡ any_exported g children t
any_in_set-eq-any_exported g sets [] t h = refl
any_in_set-eq-any_exported g sets (child ∷ children) t h =
    rw (h child, any_in_set-eq-any_exported g sets children t h)

get_elem?-map-range :
    {A : Type 0} (f : ℕ → A) (first n i : ℕ)
    → i < n
    → get_elem? (map f (range first n)) i ≡ some (f (first + i))
get_elem?-map-range f first zero i h = elim h [ ]
get_elem?-map-range f first (suc n) zero h = ap (λ k. some (f k)) (omega arith)
get_elem?-map-range f first (suc n) (suc i) h =
    get_elem?-map-range f (first + 1) n i (omega arith) ∙ ap (λ k. some (f k)) (omega arith)

pub in_set-locals :
    (g : ModuleGraph) (index t : ℕ)
    → index < length g.nodes
    → in_set (map (local_types g) (range 0 (length g.nodes))) index t
      ≡ contains (local_types g index) t
in_set-locals g index t h =
    ap (λ o. member o t) (get_elem?-map-range (local_types g) 0 (length g.nodes) index h)
    ∙ ap (λ k. contains (local_types g k) t) (omega arith)

pub in_set-empty : (first n j t : ℕ) → in_set (map (λ _. []) (range first n)) j t ≡ false
in_set-empty first zero j t = refl
in_set-empty first (suc n) zero t = refl
in_set-empty first (suc n) (suc j) t = in_set-empty (first + 1) n j t
