-- ===== src/Discovery/Imports.antt =====
-- crates/caelix-core/src/module.rs: what the walk of `discover_from` keeps, and its result.
use caelix.Prelude.{
  ℕ, String, zero, ◌≡◌, refl, ap, ◌≢◌, ◌⊎◌, Option, none, some, List, [], ◌∷◌, ◌++◌, length,
  get_elem?, set, In, All, AllDistinct, suc,
}
use caelix.Errors.{
  HttpException, circular_import, startup_error, Outcome, done, fail, panicked, out_of_fuel, ◌>>=◌,
}
use caelix.Metadata.{ModuleDef, ModuleMetadata}
use caelix.Graph.{ModuleNode}
use caelix.Schedule.{Mark, finished}
use caelix.Discovery.{Found, push_import, validate_controllers}

abbrev pub types : List ModuleNode → List ℕ
types [] = []
types (node ∷ nodes) = node.type_id ∷ types nodes

abbrev pub import_types : List ModuleDef → List ℕ
import_types [] = []
import_types (d ∷ ds) = d.type_id ∷ import_types ds

-- The indices of the imports lead to the types that are declared.
abbrev pub Resolves : List ℕ → List ℕ → List ModuleDef → Type 0
Resolves ts [] [] = Unit
Resolves ts [] (d ∷ ds) = ⊥
Resolves ts (i ∷ is) [] = ⊥
Resolves ts (i ∷ is) (d ∷ ds) = (get_elem? ts i ≡ some d.type_id) × Resolves ts is ds

-- The computation returned: a value with `P`, or an error with `E`.
abbrev pub Ends {ℓ} : {A : Type ℓ} → (HttpException → Type 0) → Outcome A → (A → Type 0) → Type 0
Ends E (done a) P = P a
Ends E (fail e) P = E e
Ends E panicked P = ⊥
Ends E out_of_fuel P = ⊥

pub Ends-bind {ℓ κ} :
    {A : Type ℓ} {B : Type κ} (E : HttpException → Type 0) (P : A → Type 0) (Q : B → Type 0)
    (m : Outcome A) (f : A → Outcome B)
    → Ends E m P
    → ((a : A) → P a → Ends E (f a) Q)
    → Ends E (m >>= f) Q
Ends-bind E P Q (done a) f p k = k a p
Ends-bind E P Q (fail e) f p k = p
Ends-bind E P Q panicked f p k = p
Ends-bind E P Q out_of_fuel f p k = p

pub Ends-weaken {ℓ} :
    {A : Type ℓ} (E : HttpException → Type 0) (P Q : A → Type 0) (m : Outcome A)
    → Ends E m P
    → ((a : A) → P a → Q a)
    → Ends E m Q
Ends-weaken E P Q (done a) p k = k a p
Ends-weaken E P Q (fail e) p k = p
Ends-weaken E P Q panicked p k = p
Ends-weaken E P Q out_of_fuel p k = p

module _ {A : Type 0} where
  pub get_elem?-append_left :
      (xs ys : List A) (i : ℕ) {a : A} → get_elem? xs i ≡ some a → get_elem? (xs ++ ys) i ≡ some a
  get_elem?-append_left [] ys i e = cc e
  get_elem?-append_left (x ∷ xs) ys zero e = e
  get_elem?-append_left (x ∷ xs) ys (suc i) e = get_elem?-append_left xs ys i e

  pub get_elem?-middle : (xs ys : List A) (a : A) → get_elem? (xs ++ a ∷ ys) (length xs) ≡ some a
  get_elem?-middle [] ys a = refl
  get_elem?-middle (x ∷ xs) ys a = get_elem?-middle xs ys a

  set-middle : (xs ys : List A) (a b : A) → set (xs ++ a ∷ ys) (length xs) b ≡ xs ++ b ∷ ys
  set-middle [] ys a b = refl
  set-middle (x ∷ xs) ys a b = ap (λ l. x ∷ l) (set-middle xs ys a b)

pub types-append : (xs ys : List ModuleNode) → types (xs ++ ys) ≡ types xs ++ types ys
types-append [] ys = refl
types-append (x ∷ xs) ys = ap (λ l. x.type_id ∷ l) (types-append xs ys)

pub types-imports :
    (pre : List ModuleNode) (node : ModuleNode) (is : List ℕ) (post : List ModuleNode)
    → types (pre ++ record node { imports = is } ∷ post) ≡ types (pre ++ node ∷ post)
types-imports [] node is post = refl
types-imports (x ∷ pre) node is post = ap (λ l. x.type_id ∷ l) (types-imports pre node is post)

pub length-types : (xs : List ModuleNode) → length (types xs) ≡ length xs
length-types [] = refl
length-types (x ∷ xs) = ap suc (length-types xs)

pub Resolves-append :
    (ts us : List ℕ) (is : List ℕ) (ds : List ModuleDef)
    → Resolves ts is ds
    → Resolves (ts ++ us) is ds
Resolves-append ts us [] [] r = tt
Resolves-append ts us [] (d ∷ ds) r = r
Resolves-append ts us (i ∷ is) [] r = r
Resolves-append ts us (i ∷ is) (d ∷ ds) (e, r) =
    (get_elem?-append_left ts us i e, Resolves-append ts us is ds r)

pub push_import-eq :
    (w : Found) (pre : List ModuleNode) (node : ModuleNode) (post : List ModuleNode) (child : ℕ)
    → w.nodes ≡ pre ++ node ∷ post
    → push_import (length pre) child w
      ≡ done
          (record w { nodes = pre ++ record node { imports = node.imports ++ child ∷ [] } ∷ post })
push_import-eq w pre node post child e =
    rw
      (
        e,
        get_elem?-middle pre post node,
        set-middle pre post node (record node { imports = node.imports ++ child ∷ [] }),
      )
      refl

module _ (metadata_of : ℕ → ModuleMetadata) (u : List ℕ) where
  -- The node of a module of `u` whose imports are found.
  abbrev pub Good : List ℕ → ModuleNode → Type 0
  Good ts node =
      In node.type_id u
      × (node.metadata ≡ record (metadata_of node.type_id) { imports = [] })
      × Resolves ts node.imports (metadata_of node.type_id).imports

  pub Good-append :
      (ts us : List ℕ) (nodes : List ModuleNode) → All (Good ts) nodes → All (Good (ts ++ us)) nodes
  Good-append ts us [] g = tt
  Good-append ts us (n ∷ nodes) ((i, m, r), g) = (
    (i, m, Resolves-append ts us n.imports (metadata_of n.type_id).imports r),
    Good-append ts us nodes g,
  )

module _ (metadata_of : ℕ → ModuleMetadata) where
  -- The types of finished modules, the latest first: each behind its imports.
  abbrev pub Sorted : List ℕ → Type 0
  Sorted [] = Unit
  Sorted (t ∷ ts) = (In t ts → ⊥) × All (λ d. In d.type_id ts) (metadata_of t).imports × Sorted ts

  -- `Reaches t s`: one or more imports lead from `t` to `s`.
  pub data Reaches (t : ℕ) : ℕ → Type 0 where
    direct : {s : ℕ} → In s (import_types (metadata_of t).imports) → Reaches t s
    through : {s r : ℕ} → Reaches t s → In r (import_types (metadata_of s).imports) → Reaches t r

  -- Why discovery fails: a module imports itself, or the routes of a controller are refused.
  abbrev pub IsReason : List ℕ → HttpException → Type 0
  IsReason u e =
      ((t : ℕ) × In t u
        × Reaches t t
        × ((path : List String) × (e ≡ startup_error (circular_import path))))
      ⊎ ((t : ℕ) × In t u × (validate_controllers (metadata_of t).controllers ≡ fail e))

  pub record Well (finish ts : List ℕ) (marks : ℕ → Option Mark) : Type 0 where
    pub distinct : AllDistinct ts
    pub listed : (t : ℕ) (m : Mark) → marks t ≡ some m → In t ts
    pub marked : (t : ℕ) → In t ts → marks t ≢ none
    pub sorted : Sorted finish
    pub finished_in : (t : ℕ) → marks t ≡ some finished → In t finish
    pub in_finished : (t : ℕ) → In t finish → marks t ≡ some finished
