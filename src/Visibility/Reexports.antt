-- ===== src/Visibility/Reexports.antt =====
-- crates/caelix-core/src/module.rs: what `preflight` accepts as an export.
use caelix.Prelude.{ℕ, ◌+◌, ◌≤◌, ◌<◌, ◌≡◌, ◌∙◌, true, ◌||◌, List, [], ◌∷◌, arith, length, All}
use caelix.Errors.{done, >>=-eq-done}
use caelix.Container.{ProviderDependency}
use caelix.Graph.{ModuleNode}
use caelix.Visibility.{check_exports, collect_exports}
use caelix.Visibility.Sets.{in_set, any_in_set, inserted_at}
use caelix.Visibility.Exports.{
  length-check_exports, check_exports-step, length-inserted_at, in_set-check_exports,
  in_set-collect_exports, in_set-inserted_at,
}

abbrev Grows : List (List ℕ) → List (List ℕ) → Type 0
Grows a b = (j t : ℕ) → in_set a j t ≡ true → in_set b j t ≡ true

any_in_set_mono :
    (a b : List (List ℕ)) (children : List ℕ) (t : ℕ)
    → Grows a b
    → any_in_set a children t ≡ true
    → any_in_set b children t ≡ true
any_in_set_mono a b [] t h e = e
any_in_set_mono a b (child ∷ children) t h e =
    ground (arith, h child t, any_in_set_mono a b children t h)

-- The module declares the type itself, or a direct import exports it.
abbrev pub MayExport : List (List ℕ) → List (List ℕ) → ℕ → ModuleNode → Type 0
MayExport locals sets index node =
    All (λ x. (in_set locals index x.type_id || any_in_set sets node.imports x.type_id) ≡ true)
      node.metadata.exports

module _ (locals : List (List ℕ)) (index : ℕ) (node : ModuleNode) where
  Allowed : List (List ℕ) → List ProviderDependency → Type 0
  Allowed sets es =
      All (λ x. (in_set locals index x.type_id || any_in_set sets node.imports x.type_id) ≡ true) es

  check_exports-Grows :
      (es : List ProviderDependency) (sets sets' : List (List ℕ))
      → index < length sets
      → check_exports locals index node es sets ≡ done sets'
      → Grows sets sets'
  check_exports-Grows es sets sets' h e j t i =
      in_set-check_exports locals index node es sets sets' j t h e ∙ rw i

  Allowed-mono :
      (es : List ProviderDependency) (a b : List (List ℕ)) → Grows a b → Allowed a es → Allowed b es
  unfolding Allowed
  Allowed-mono [] a b g h = tt
  Allowed-mono (x ∷ es) a b g (h, hs) =
      (ground (arith, any_in_set_mono a b node.imports x.type_id g), Allowed-mono es a b g hs)

  check_exports-Allowed :
      (es : List ProviderDependency) (sets sets' : List (List ℕ))
      → index < length sets
      → check_exports locals index node es sets ≡ done sets'
      → Allowed sets' es
  unfolding Allowed check_exports
  check_exports-Allowed [] sets sets' h e = tt
  check_exports-Allowed (x ∷ es) sets sets' h e =
      let s1 = inserted_at sets index x.type_id in
      let (here, e2) = check_exports-step locals index node x es sets sets' e in
      let h1 : index < length s1 = omega (arith, length-inserted_at sets index x.type_id) in
      let grows : Grows sets sets' = λ j t i.
        check_exports-Grows es s1 sets' h1 e2 j t
          (in_set-inserted_at sets index j t x.type_id h ∙ rw i) in
      (
        ground (arith, here, any_in_set_mono sets sets' node.imports x.type_id grows),
        check_exports-Allowed es s1 sets' h1 e2,
      )

abbrev pub MayExportFrom : List (List ℕ) → List (List ℕ) → ℕ → List ModuleNode → Type 0
MayExportFrom locals sets index [] = Unit
MayExportFrom locals sets index (node ∷ nodes) =
    MayExport locals sets index node × MayExportFrom locals sets (index + 1) nodes

pub collect_exports-MayExport :
    (locals : List (List ℕ)) (index : ℕ) (nodes : List ModuleNode) (sets sets' : List (List ℕ))
    → index + length nodes ≤ length sets
    → collect_exports locals index nodes sets ≡ done sets'
    → MayExportFrom locals sets' index nodes
unfolding collect_exports Allowed
collect_exports-MayExport locals index [] sets sets' h e = tt
collect_exports-MayExport locals index (node ∷ nodes) sets sets' h e =
    let (s1, e1, e2) =
      >>=-eq-done (check_exports locals index node node.metadata.exports sets)
        (collect_exports locals (index + 1) nodes) e in
    let len = length-check_exports locals index node node.metadata.exports sets s1 e1 in
    (
      Allowed-mono locals index node node.metadata.exports s1 sets'
          (λ j t i.
            in_set-collect_exports locals (index + 1) nodes s1 sets' j t (omega (arith, len)) e2
            ∙ rw i)
          (check_exports-Allowed locals index node node.metadata.exports sets s1 (omega arith) e1),
      collect_exports-MayExport locals (index + 1) nodes s1 sets' (omega (arith, len)) e2,
    )
