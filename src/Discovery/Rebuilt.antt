-- ===== src/Discovery/Rebuilt.antt =====
-- crates/caelix-core/src/module.rs: the graph of `discover_from`, with the modules at their new
-- indices.
use caelix.Prelude.{
  ℕ, zero, suc, ◌+◌, ◌≡◌, refl, sym, subst, ap, ◌∙◌, ◌≢◌, inl, inr, Option, none, some, List, [],
  ◌∷◌, ◌++◌, arith, get_elem?, set, In, In-append_left, In-append_right, All, AllDistinct,
  Bool-cases, ==_iff, ◌==◌,
}
use caelix.Errors.{done}
use caelix.Container.{update}
use caelix.Metadata.{ModuleDef}
use caelix.Graph.{ModuleNode}
use caelix.Discovery.{remap_from, remap_imports}
use caelix.Discovery.Imports.{Resolves, get_elem?-append_left}
use caelix.Discovery.Placed.{AreOrdered}

-- The indices of a list lead to themselves by `remap`.
abbrev pub IsRemap : (ℕ → Option ℕ) → List ℕ → Type 0
IsRemap remap js = (k j : ℕ) → get_elem? js k ≡ some j → remap j ≡ some k

remap_from-absent :
    (n : ℕ) (js : List ℕ) (m : ℕ → Option ℕ) (j : ℕ) → (In j js → ⊥) → remap_from n js m j ≡ m j
unfolding remap_from
remap_from-absent n [] m j f = refl
remap_from-absent n (k ∷ js) m j f = elim (Bool-cases (k == j)) [
  | inl same ↦ absurd (f (inl (sym ((==_iff k j).0 same))))
  | inr other ↦ remap_from-absent (suc n) js (update m k n) j (λ i. f (inr i)) ∙ rw other refl
]

module _ (nodes : List ModuleNode) where
  pub later_absent :
      (earlier js : List ℕ) (j : ℕ) → AreOrdered nodes earlier js → In j earlier → In j js → ⊥
  later_absent earlier [] j a i k = k
  later_absent earlier (x ∷ js) j ((n, e, c, f), a) i (inl same) =
      f (subst (λ y. In y earlier) same i)
  later_absent earlier (x ∷ js) j (h, a) i (inr k) =
      later_absent (earlier ++ x ∷ []) js j a (In-append_left j earlier (x ∷ []) i) k

  remap_from-at :
      (earlier js : List ℕ) (n : ℕ) (m : ℕ → Option ℕ) (k j : ℕ)
      → AreOrdered nodes earlier js
      → get_elem? js k ≡ some j
      → remap_from n js m j ≡ some (n + k)
  unfolding remap_from
  remap_from-at earlier [] n m k j a e = cc e
  remap_from-at earlier (x ∷ js) n m zero j (h, a) e =
      let same : x ≡ j = cc e in
      remap_from-absent (suc n) js (update m x n) j (
        later_absent (earlier ++ x ∷ []) js j a
          (In-append_right j earlier (x ∷ []) (inl (sym same))))
      ∙ (rw ((==_iff x j).1 same) (ap some (omega arith)))
  remap_from-at earlier (x ∷ js) n m (suc k) j (h, a) e =
      remap_from-at (earlier ++ x ∷ []) js (suc n) (update m x n) k j a e ∙ ap some (omega arith)

  pub remap_from-IsRemap :
      (js : List ℕ) → AreOrdered nodes [] js → IsRemap (remap_from 0 js (λ _. none)) js
  remap_from-IsRemap js a k j e = remap_from-at [] js 0 (λ _. none) k j a e ∙ ap some (omega arith)

pub set_other :
    {A : Type 0} (xs : List A) (i j : ℕ) (a : A) → i ≢ j → get_elem? (set xs i a) j ≡ get_elem? xs j
set_other [] i j a h = refl
set_other (x ∷ xs) zero zero a h = absurd (h refl)
set_other (x ∷ xs) zero (suc j) a h = refl
set_other (x ∷ xs) (suc i) zero a h = refl
set_other (x ∷ xs) (suc i) (suc j) a h = set_other xs i j a (λ e. h (ap suc e))

pub In-index : (js : List ℕ) (j : ℕ) → In j js → (k : ℕ) × (get_elem? js k ≡ some j)
In-index [] j i = absurd i
In-index (x ∷ js) j (inl e) = (0, ap some (sym e))
In-index (x ∷ js) j (inr i) = let (k, e) = In-index js j i in (suc k, e)

at-In : (ts : List ℕ) (i t : ℕ) → get_elem? ts i ≡ some t → In t ts
at-In [] i t e = cc e
at-In (x ∷ ts) zero t e = inl (cc e)
at-In (x ∷ ts) (suc i) t e = inr (at-In ts i t e)

pub at_injective :
    (ts : List ℕ) (i j t : ℕ)
    → AllDistinct ts
    → get_elem? ts i ≡ some t
    → get_elem? ts j ≡ some t
    → i ≡ j
at_injective [] i j t d e f = cc e
at_injective (x ∷ ts) zero zero t d e f = refl
at_injective (x ∷ ts) zero (suc j) t (n, d) e f =
    let same : x ≡ t = cc e in absurd (n (subst (λ y. In y ts) (sym same) (at-In ts j t f)))
at_injective (x ∷ ts) (suc i) zero t (n, d) e f =
    let same : x ≡ t = cc f in absurd (n (subst (λ y. In y ts) (sym same) (at-In ts i t e)))
at_injective (x ∷ ts) (suc i) (suc j) t (n, d) e f = ap suc (at_injective ts i j t d e f)

module _ (ts : List ℕ) where
  -- The types of a list of indices.
  abbrev pub ArePaired : List ℕ → List ℕ → Type 0
  ArePaired [] [] = Unit
  ArePaired [] (j ∷ js) = ⊥
  ArePaired (t ∷ us) [] = ⊥
  ArePaired (t ∷ us) (j ∷ js) = (get_elem? ts j ≡ some t) × ArePaired us js

  pub paired_concat :
      (us js : List ℕ) (t j : ℕ)
      → ArePaired us js
      → get_elem? ts j ≡ some t
      → ArePaired (us ++ t ∷ []) (js ++ j ∷ [])
  paired_concat [] [] t j p e = (e, tt)
  paired_concat [] (k ∷ js) t j p e = absurd p
  paired_concat (v ∷ us) [] t j p e = absurd p
  paired_concat (v ∷ us) (k ∷ js) t j (h, p) e = (h, paired_concat us js t j p e)

  paired_at :
      (us js : List ℕ) (k j : ℕ)
      → ArePaired us js
      → get_elem? js k ≡ some j
      → get_elem? us k ≡ get_elem? ts j
  paired_at [] [] k j p e = cc e
  paired_at [] (x ∷ js) k j p e = absurd p
  paired_at (v ∷ us) [] k j p e = absurd p
  paired_at (v ∷ us) (x ∷ js) zero j (h, p) e =
      let same : x ≡ j = cc e in sym h ∙ ap (get_elem? ts) same
  paired_at (v ∷ us) (x ∷ js) (suc k) j (h, p) e = paired_at us js k j p e

  pub paired_In :
      (us js : List ℕ) (t : ℕ)
      → ArePaired us js
      → In t us
      → (j : ℕ) × In j js × (get_elem? ts j ≡ some t)
  paired_In [] js t p i = absurd i
  paired_In (v ∷ us) [] t p i = absurd p
  paired_In (v ∷ us) (x ∷ js) t (h, p) (inl e) = (x, inl refl, h ∙ ap some (sym e))
  paired_In (v ∷ us) (x ∷ js) t (h, p) (inr i) =
      let (j, k, e) = paired_In us js t p i in (j, inr k, e)

  pub remapped :
      (us js rest : List ℕ) (remap : ℕ → Option ℕ) (is : List ℕ) (ds : List ModuleDef)
      → ArePaired us js
      → IsRemap remap (js ++ rest)
      → All (λ c. In c js) is
      → Resolves ts is ds
      → (ks : List ℕ) × (remap_imports remap is ≡ done ks) × Resolves us ks ds
  unfolding remap_imports
  remapped us js rest remap [] [] p m a r = ([], refl, tt)
  remapped us js rest remap [] (d ∷ ds) p m a r = absurd r
  remapped us js rest remap (i ∷ is) [] p m a r = absurd r
  remapped us js rest remap (i ∷ is) (d ∷ ds) p m (h, a) (e, r) =
      let (k, f) = In-index js i h in
      let (ks, g, s) = remapped us js rest remap is ds p m a r in
      (
        k ∷ ks,
        rw (m k i (get_elem?-append_left js rest k f), g) refl,
        (paired_at us js k i p f ∙ e, s),
      )
