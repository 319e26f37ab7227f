-- ===== src/Visibility/Sets.antt =====
-- crates/caelix-core/src/module.rs: the sets of `preflight`, whose lookups panic out of bounds, against
-- lookups that find nothing there.
use caelix.Prelude.{
  get_elem?-some, ℕ, zero, suc, ◌<◌, ◌≡◌, refl, sym, subst, Bool, true, false, ◌||◌, Option, none,
  some, List, [], ◌∷◌, arith, length, get_elem?, set, All,
}
use caelix.Errors.{
  Outcome, done, fail, panicked, out_of_fuel, at_index, ◌>>=◌, Returns, Returns-bind,
}
use caelix.Container.{contains}
use caelix.Graph.{ModuleNode, ModuleGraph}
use caelix.Visibility.{Scopes, contains_at, or_then, any_contains, insert_at, any_import, visible}

abbrev pub member : Option (List ℕ) → ℕ → Bool
member none t = false
member (some s) t = contains s t

abbrev pub in_set : List (List ℕ) → ℕ → ℕ → Bool
in_set sets index t = member (get_elem? sets index) t

abbrev pub any_in_set : List (List ℕ) → List ℕ → ℕ → Bool
any_in_set sets [] t = false
any_in_set sets (child ∷ children) t = in_set sets child t || any_in_set sets children t

abbrev write_at : List (List ℕ) → ℕ → ℕ → Option (List ℕ) → List (List ℕ)
write_at sets index t none = sets
write_at sets index t (some s) = set sets index (t ∷ s)

abbrev pub inserted_at : List (List ℕ) → ℕ → ℕ → List (List ℕ)
inserted_at sets index t = write_at sets index t (get_elem? sets index)

abbrev pub node_imports : Option ModuleNode → List ℕ
node_imports none = []
node_imports (some node) = node.imports

abbrev pub imports_of : ModuleGraph → ℕ → List ℕ
imports_of g index = node_imports (get_elem? g.nodes index)

pub All-get_elem? {ℓ κ} :
    {A : Type ℓ} (P : A → Type κ) (xs : List A) (i : ℕ) (a : A)
    → All P xs
    → get_elem? xs i ≡ some a
    → P a
All-get_elem? P [] i a h e = cc e
All-get_elem? P (x ∷ xs) zero a (h, hs) e = let same : x ≡ a = cc e in subst P same h
All-get_elem? P (x ∷ xs) (suc i) a (h, hs) e = All-get_elem? P xs i a hs e

-- A lookup that returns.
pub at_index-member :
    (o : Option (List ℕ)) (t : ℕ) {s : List ℕ} → at_index o ≡ done s → member o t ≡ contains s t
at_index-member none t e = cc e
at_index-member (some s) t e = cc e

pub contains_at-in_set :
    (sets : List (List ℕ)) (index t : ℕ) {b : Bool}
    → contains_at sets index t ≡ done b
    → in_set sets index t ≡ b
contains_at-in_set sets index t {b} e = by_option (get_elem? sets index) e
  where
    by_option :
        (o : Option (List ℕ)) → (at_index o >>= λ s. done (contains s t)) ≡ done b → member o t ≡ b
    by_option none e = cc e
    by_option (some s) e = cc e

pub or_then-eq-done :
    (m n : Outcome Bool) (x y : Bool) {b : Bool}
    → or_then m n ≡ done b
    → ((v : Bool) → m ≡ done v → x ≡ v)
    → ((v : Bool) → n ≡ done v → y ≡ v)
    → (x || y) ≡ b
or_then-eq-done (done true) n x y e f k = rw (f true refl) (cc e)
or_then-eq-done (done false) n x y e f k = rw (f false refl) (k _ e)
or_then-eq-done (fail x1) n x y e f k = cc e
or_then-eq-done panicked n x y e f k = cc e
or_then-eq-done out_of_fuel n x y e f k = cc e

pub any_contains-any_in_set :
    (sets : List (List ℕ)) (children : List ℕ) (t : ℕ) {b : Bool}
    → any_contains sets children t ≡ done b
    → any_in_set sets children t ≡ b
any_contains-any_in_set sets [] t e = cc e
any_contains-any_in_set sets (child ∷ children) t e =
    or_then-eq-done (contains_at sets child t) (any_contains sets children t) _ _ e
      (λ v h. contains_at-in_set sets child t h) (λ v h. any_contains-any_in_set sets children t h)

pub insert_at-inserted_at :
    (sets : List (List ℕ)) (index t : ℕ) {sets' : List (List ℕ)}
    → insert_at sets index t ≡ done sets'
    → inserted_at sets index t ≡ sets'
insert_at-inserted_at sets index t {sets'} e = by_option (get_elem? sets index) e
  where
    by_option :
        (o : Option (List ℕ))
        → (at_index o >>= λ s. done (set sets index (t ∷ s))) ≡ done sets'
        → write_at sets index t o ≡ sets'
    by_option none e = cc e
    by_option (some s) e = cc e

pub any_import-any_in_set :
    (g : ModuleGraph) (sets : List (List ℕ)) (index t : ℕ) {b : Bool}
    → any_import g sets index t ≡ done b
    → any_in_set sets (imports_of g index) t ≡ b
any_import-any_in_set g sets index t {b} e = by_option (get_elem? g.nodes index) e
  where
    by_option :
        (o : Option ModuleNode)
        → (at_index o >>= λ node. any_contains sets node.imports t) ≡ done b
        → any_in_set sets (node_imports o) t ≡ b
    by_option none e = cc e
    by_option (some node) e = any_contains-any_in_set sets node.imports t e

-- In bounds, a lookup returns.
abbrev pub AreBelow : ℕ → List ℕ → Type 0
AreBelow n = All (λ i. i < n)

-- The imports of every module are modules of the graph.
abbrev pub AreInBounds : ModuleGraph → Type 0
AreInBounds g = All (λ node. AreBelow (length g.nodes) node.imports) g.nodes

pub at_index-Returns {ℓ} :
    {A : Type ℓ} (xs : List A) (index : ℕ)
    → index < length xs
    → Returns (at_index (get_elem? xs index))
at_index-Returns xs index h = let (a, found) = get_elem?-some xs index h in rw found tt

pub contains_at-Returns :
    (sets : List (List ℕ)) (index t : ℕ) → index < length sets → Returns (contains_at sets index t)
contains_at-Returns sets index t h =
    Returns-bind (at_index (get_elem? sets index)) (λ s. done (contains s t))
      (at_index-Returns sets index h) (λ s e. tt)

pub insert_at-Returns :
    (sets : List (List ℕ)) (index t : ℕ) → index < length sets → Returns (insert_at sets index t)
insert_at-Returns sets index t h =
    Returns-bind (at_index (get_elem? sets index)) (λ s. done (set sets index (t ∷ s)))
      (at_index-Returns sets index h) (λ s e. tt)

or_then-Returns : (m n : Outcome Bool) → Returns m → Returns n → Returns (or_then m n)
or_then-Returns (done true) n h k = tt
or_then-Returns (done false) n h k = k
or_then-Returns (fail e) n h k = tt
or_then-Returns panicked n h k = h
or_then-Returns out_of_fuel n h k = h

pub any_contains-Returns :
    (sets : List (List ℕ)) (children : List ℕ) (t : ℕ)
    → AreBelow (length sets) children
    → Returns (any_contains sets children t)
any_contains-Returns sets [] t h = tt
any_contains-Returns sets (child ∷ children) t (h, hs) =
    or_then-Returns (contains_at sets child t) (any_contains sets children t)
      (contains_at-Returns sets child t h) (any_contains-Returns sets children t hs)

pub visible-Returns :
    (g : ModuleGraph) (s : Scopes) (index t : ℕ)
    → AreInBounds g
    → length s.locals ≡ length g.nodes
    → length s.exports ≡ length g.nodes
    → index < length g.nodes
    → Returns (visible g s index t)
unfolding visible
visible-Returns g s index t bounds locals exports h =
    let (node, found) = get_elem?-some g.nodes index h in
    or_then-Returns (contains_at s.locals index t)
      (or_then (done (contains s.globals t)) (any_import g s.exports index t))
      (contains_at-Returns s.locals index t (omega (arith, locals)))
      (or_then-Returns (done (contains s.globals t)) (any_import g s.exports index t) tt (
        rw found (
          any_contains-Returns s.exports node.imports t (
            subst (λ n. AreBelow n node.imports) (sym exports)
              (All-get_elem? _ g.nodes index node bounds found)))))
