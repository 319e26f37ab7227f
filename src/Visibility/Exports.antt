-- ===== src/Visibility/Exports.antt =====
-- crates/caelix-core/src/module.rs: the sets of exported types that `preflight` builds, against
-- the exports that the modules declare.
use caelix.Prelude.{
  get_elem?-some, ℕ, zero, suc, ◌+◌, ◌≤◌, ◌<◌, ◌≡◌, refl, sym, ap, subst, ◌∙◌, inl, inr, Bool,
  false, ◌||◌, some, List, [], ◌∷◌, map, arith, ◌==◌, ==_iff, if◌then◌else◌, length, get_elem?, set,
  Bool-cases, Option-cases, All, true, not, ◌&&◌,
}
use caelix.Errors.{
  done, fail_if, Returns, Returns-bind, >>=-eq-done, fail_if-Returns, fail_if-eq-done,
}
use caelix.Container.{ProviderDependency, contains, dependency_type}
use caelix.Graph.{ModuleNode}
use caelix.Visibility.{contains_at, any_contains, insert_at, check_exports, collect_exports}
use caelix.Visibility.Sets.{
  in_set, any_in_set, inserted_at, contains_at-in_set, any_contains-any_in_set,
  insert_at-inserted_at, AreBelow, contains_at-Returns, insert_at-Returns, any_contains-Returns,
}

abbrev pub export_types : ModuleNode → List ℕ
export_types node = map dependency_type node.metadata.exports

-- `t` is declared as an export by the module at `j`, of modules that are numbered from `index`.
abbrev pub exported_from : ℕ → List ModuleNode → ℕ → ℕ → Bool
exported_from index [] j t = false
exported_from index (node ∷ nodes) j t =
    (if j == index then contains (export_types node) t else false)
    || exported_from (index + 1) nodes j t

get_elem?-set {ℓ} :
    {A : Type ℓ} (xs : List A) (i j : ℕ) (v w : A)
    → get_elem? xs i ≡ some w
    → get_elem? (set xs i v) j ≡ (if j == i then some v else get_elem? xs j)
get_elem?-set [] i j v w h = cc
get_elem?-set (x ∷ xs) zero zero v w h = refl
get_elem?-set (x ∷ xs) zero (suc j) v w h = ground arith
get_elem?-set (x ∷ xs) (suc i) zero v w h = ground arith
get_elem?-set (x ∷ xs) (suc i) (suc j) v w h = get_elem?-set xs i j v w h ∙ ground arith

length-set {ℓ} : {A : Type ℓ} (xs : List A) (i : ℕ) (v : A) → length (set xs i v) ≡ length xs
length-set [] i v = refl
length-set (x ∷ xs) zero v = refl
length-set (x ∷ xs) (suc i) v = ap suc (length-set xs i v)

pub in_set-inserted_at :
    (sets : List (List ℕ)) (index j t k : ℕ)
    → index < length sets
    → in_set (inserted_at sets index k) j t
      ≡ (in_set sets j t || (if j == index then k == t else false))
in_set-inserted_at sets index j t k h =
    let (s, found) = get_elem?-some sets index h in
    rw found (elim (Bool-cases (j == index)) [
      | inl same ↦
          let at_j : get_elem? sets j ≡ some s =
            subst (λ i. get_elem? sets i ≡ some s) (sym ((==_iff j index).0 same)) found in
          rw (get_elem?-set sets index j (k ∷ s) s found, same, at_j) (ground arith)
      | inr other ↦ rw (get_elem?-set sets index j (k ∷ s) s found, other) (ground arith)
    ])

or_false : (a b : Bool) → a ≡ (a || (if b then false else false))
or_false a b = ground arith

or_merge :
    (a b k r : Bool)
    → ((a || (if b then k else false)) || (if b then r else false))
      ≡ (a || (if b then k || r else false))
or_merge a b k r = ground arith

or_assoc : (a b k : Bool) → ((a || b) || k) ≡ (a || (b || k))
or_assoc a b k = ground arith

pub length-inserted_at :
    (sets : List (List ℕ)) (index k : ℕ) → length (inserted_at sets index k) ≡ length sets
length-inserted_at sets index k = elim (Option-cases (get_elem? sets index)) [
  | inl absent ↦ rw absent
  | inr (s, found) ↦ rw found (length-set sets index (k ∷ s))
]

-- The exports of one module are added to its set, and each is a local type or an import's export.
module _ (locals : List (List ℕ)) (index : ℕ) (node : ModuleNode) where
  not_both : (a b : Bool) → (not a && not b) ≡ false → (a || b) ≡ true
  not_both a b h = ground arith

  -- An export that is accepted is local or imported, and inserted.
  pub check_exports-step :
      (x : ProviderDependency) (es : List ProviderDependency) (sets sets' : List (List ℕ))
      → check_exports locals index node (x ∷ es) sets ≡ done sets'
      → ((in_set locals index x.type_id || any_in_set sets node.imports x.type_id) ≡ true)
        × (check_exports locals index node es (inserted_at sets index x.type_id) ≡ done sets')
  unfolding check_exports
  check_exports-step x es sets sets' e =
      let (imported, e1, r1) = >>=-eq-done (any_contains sets node.imports x.type_id) _ e in
      let (local, e2, r2) = >>=-eq-done (contains_at locals index x.type_id) _ r1 in
      let (u, e3, r3) = >>=-eq-done (fail_if (not local && not imported) _) _ r2 in
      let (s1, e4, r4) = >>=-eq-done (insert_at sets index x.type_id) _ r3 in
      (
        rw
            (
              contains_at-in_set locals index x.type_id e2,
              any_contains-any_in_set sets node.imports x.type_id e1,
            )
            (not_both local imported (fail_if-eq-done _ _ e3)),
        subst (λ s. check_exports locals index node es s ≡ done sets')
            (sym (insert_at-inserted_at sets index x.type_id e4)) r4,
      )

  pub length-check_exports :
      (es : List ProviderDependency) (sets sets' : List (List ℕ))
      → check_exports locals index node es sets ≡ done sets'
      → length sets' ≡ length sets
  unfolding check_exports
  length-check_exports [] sets sets' e = let same : sets ≡ sets' = cc in ap length (sym same)
  length-check_exports (x ∷ es) sets sets' e =
      let (_, e2) = check_exports-step x es sets sets' e in
      length-check_exports es (inserted_at sets index x.type_id) sets' e2
      ∙ length-inserted_at sets index x.type_id

  pub in_set-check_exports :
      (es : List ProviderDependency) (sets sets' : List (List ℕ)) (j t : ℕ)
      → index < length sets
      → check_exports locals index node es sets ≡ done sets'
      → in_set sets' j t
        ≡ (in_set sets j t || (if j == index then contains (map dependency_type es) t else false))
  unfolding check_exports
  in_set-check_exports [] sets sets' j t h e =
      let same : sets ≡ sets' = cc in
      subst (λ s. in_set s j t ≡ (in_set sets j t || (if j == index then false else false))) same
        (or_false (in_set sets j t) (j == index))
  in_set-check_exports (x ∷ es) sets sets' j t h e =
      let (_, e2) = check_exports-step x es sets sets' e in
      in_set-check_exports es (inserted_at sets index x.type_id) sets' j t
        (omega (arith, length-inserted_at sets index x.type_id)) e2
      ∙ rw (in_set-inserted_at sets index j t x.type_id h) (
          or_merge (in_set sets j t) (j == index) (x.type_id == t)
            (contains (map dependency_type es) t))

  check_exports-Returns :
      (es : List ProviderDependency) (sets : List (List ℕ))
      → index < length locals
      → index < length sets
      → AreBelow (length sets) node.imports
      → Returns (check_exports locals index node es sets)
  unfolding check_exports
  check_exports-Returns [] sets h k b = tt
  check_exports-Returns (x ∷ es) sets h k b =
      Returns-bind (any_contains sets node.imports x.type_id) _
        (any_contains-Returns sets node.imports x.type_id b)
        (λ imported e1.
          Returns-bind (contains_at locals index x.type_id) _
            (contains_at-Returns locals index x.type_id h)
            (λ local e2.
              Returns-bind (fail_if (not local && not imported) _) _ (fail_if-Returns _ _) (λ u e3.
                Returns-bind (insert_at sets index x.type_id) (check_exports locals index node es)
                  (insert_at-Returns sets index x.type_id k)
                  (λ s1 e4.
                    let len : length sets ≡ length s1 =
                      sym (length-inserted_at sets index x.type_id)
                      ∙ ap length (insert_at-inserted_at sets index x.type_id e4) in
                    check_exports-Returns es s1 h (omega (arith, len))
                      (subst (λ n. AreBelow n node.imports) len b)))))

-- All modules in turn.
module _ (locals : List (List ℕ)) where
  pub in_set-collect_exports :
      (index : ℕ) (nodes : List ModuleNode) (sets sets' : List (List ℕ)) (j t : ℕ)
      → index + length nodes ≤ length sets
      → collect_exports locals index nodes sets ≡ done sets'
      → in_set sets' j t ≡ (in_set sets j t || exported_from index nodes j t)
  unfolding collect_exports
  in_set-collect_exports index [] sets sets' j t h e =
      let same : sets ≡ sets' = cc in
      subst (λ s. in_set s j t ≡ (in_set sets j t || false)) same (or_false (in_set sets j t) false)
  in_set-collect_exports index (node ∷ nodes) sets sets' j t h e =
      let (s1, e1, e2) =
        >>=-eq-done (check_exports locals index node node.metadata.exports sets)
          (collect_exports locals (index + 1) nodes) e in
      let len = length-check_exports locals index node node.metadata.exports sets s1 e1 in
      in_set-collect_exports (index + 1) nodes s1 sets' j t (omega (arith, len)) e2
      ∙ rw
          (in_set-check_exports locals index node node.metadata.exports sets s1 j t (omega arith)
            e1)
          (or_assoc (in_set sets j t) (if j == index then contains (export_types node) t else false)
            (exported_from (index + 1) nodes j t))

  pub length-collect_exports :
      (index : ℕ) (nodes : List ModuleNode) (sets sets' : List (List ℕ))
      → collect_exports locals index nodes sets ≡ done sets'
      → length sets' ≡ length sets
  unfolding collect_exports
  length-collect_exports index [] sets sets' e =
      let same : sets ≡ sets' = cc in ap length (sym same)
  length-collect_exports index (node ∷ nodes) sets sets' e =
      let (s1, e1, e2) =
        >>=-eq-done (check_exports locals index node node.metadata.exports sets)
          (collect_exports locals (index + 1) nodes) e in
      length-collect_exports (index + 1) nodes s1 sets' e2
      ∙ length-check_exports locals index node node.metadata.exports sets s1 e1

  pub collect_exports-Returns :
      (index : ℕ) (nodes : List ModuleNode) (sets : List (List ℕ))
      → index + length nodes ≤ length locals
      → length sets ≡ length locals
      → All (λ node. AreBelow (length locals) node.imports) nodes
      → Returns (collect_exports locals index nodes sets)
  unfolding collect_exports
  collect_exports-Returns index [] sets h k b = tt
  collect_exports-Returns index (node ∷ nodes) sets h k (b, bs) =
      Returns-bind (check_exports locals index node node.metadata.exports sets)
        (collect_exports locals (index + 1) nodes)
        (check_exports-Returns locals index node node.metadata.exports sets (omega arith)
          (omega (arith, k)) (subst (λ n. AreBelow n node.imports) (sym k) b))
        (λ s1 e1.
          collect_exports-Returns (index + 1) nodes s1 (omega arith)
            (length-check_exports locals index node node.metadata.exports sets s1 e1 ∙ k) bs)
