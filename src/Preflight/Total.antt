-- ===== src/Preflight/Total.antt =====
-- crates/caelix-core/src/module.rs: `preflight` returns on every graph whose
-- imports are in bounds.
use caelix.Prelude.{
  ℕ, suc, ◌+◌, ◌≤◌, ◌<◌, ◌≡◌, refl, sym, ap, subst, ◌∙◌, not, ◌≢◌, inl, inr, Bool, true, false,
  Option, none, some, List, [], ◌∷◌, map, arith, length, All, In, ◌==◌, if◌then◌else◌,
}
use caelix.Errors.{Outcome, done, Returns, Returns-bind, fail_if, fail_if-Returns}
use caelix.Container.{ProviderDef, Container, has, logger_type, event_bus_type}
use caelix.Graph.{
  ModuleNode, ModuleGraph, ProviderRegistration, definitions, def, local_types, range,
}
use caelix.Graph.Definitions.{HasDef, definitions-HasDef}
use caelix.Visibility.{
  TypeMap, Scopes, effective, collect_types, each, check_dependency, check_registration,
  check_event_handler, check_event_handlers, collect_exports, global_exports, visible, contains_at,
}
use caelix.Visibility.Types.{collect_types-Collected, collect_types-Returns}
use caelix.Visibility.Sets.{AreBelow, AreInBounds, contains_at-Returns, visible-Returns}
use caelix.Visibility.Exports.{collect_exports-Returns, length-collect_exports}
use caelix.Visibility.Reference.{global_exports-Returns}
use caelix.Preflight.Steps.{AreScopes, scopes_of-AreScopes, length-range, length-locals}
use caelix.Discovery.Result.{IsGraph, IsGraph-AreInBounds}
use caelix.Metadata.{EventHandlerDef, ModuleDef, ModuleMetadata}
use caelix.Owners.{check_owners}
use caelix.Owners.Claims.{check_owners-Returns}
use caelix.Schedule.{start, schedule_all}
use caelix.Schedule.Sequence.{key, key_of_def}
use caelix.Schedule.Total.{schedule_all-Returns, count_open-le-length}
use caelix.Preflight.{scopes_of, preflight}
use caelix.Preflight.Guarantees.{provided, start-IsSorted, def-module_index}

each-Returns {ℓ} :
    {A : Type ℓ} (check : A → Outcome (Unit {0})) (xs : List A)
    → All (λ x. Returns (check x)) xs
    → Returns (each check xs)
unfolding each
each-Returns check [] h = tt
each-Returns check (x ∷ xs) (h, hs) =
    Returns-bind (check x) (λ _. each check xs) h (λ u e. each-Returns check xs hs)

All-of {ℓ κ} : {A : Type ℓ} (P : A → Type κ) → ((a : A) → P a) → (xs : List A) → All P xs
All-of P f [] = tt
All-of P f (x ∷ xs) = (f x, All-of P f xs)

if_Returns :
    (b : Bool) (m n : Outcome (Unit {0})) → Returns m → Returns n → Returns (if b then m else n)
if_Returns true m n h k = h
if_Returns false m n h k = k

module _ (g : ModuleGraph) (s : Scopes) (bounds : AreInBounds g) (a : AreScopes g s) where
  visible_from-Returns : (index t : ℕ) → index < length g.nodes → Returns (visible g s index t)
  visible_from-Returns index t h =
      visible-Returns g s index t bounds (ap length a.locals ∙ length-locals g) a.sized h

  check_registration-Returns :
      (c : Option Container) (by_type : TypeMap) (r : ProviderRegistration)
      → HasDef g r
      → Returns (check_registration g c by_type s r)
  unfolding check_registration check_dependency
  check_registration-Returns c by_type r (d, fd) =
      let eff = effective c d in
      rw (fd, check_registration)
        (each-Returns (check_dependency g c by_type s r eff) eff.dependencies (
          All-of (λ dep. Returns (check_dependency g c by_type s r eff dep))
            (λ dep. if_Returns (dep.type_id == logger_type) (done tt) _ tt (
              if_Returns (has (by_type dep.type_id)) _ _
                (Returns-bind (visible g s r.module_index dep.type_id) _
                  (visible_from-Returns r.module_index dep.type_id (def-module_index g r d fd))
                  (λ seen e. fail_if-Returns _ _))
                (fail_if-Returns _ _)))
            eff.dependencies))

  check_event_handler-Returns :
      (index : ℕ) (node : ModuleNode) (h : EventHandlerDef)
      → index < length g.nodes
      → Returns (check_event_handler g s index node h)
  unfolding check_event_handler
  check_event_handler-Returns index node h below =
      let sized = ap length a.locals ∙ length-locals g in
      Returns-bind (contains_at s.locals index h.type_id) _
        (contains_at-Returns s.locals index h.type_id (omega (arith, sized)))
        (λ local e. Returns-bind (fail_if (not local) _) _ (fail_if-Returns _ _) (λ u e2.
          Returns-bind (visible g s index event_bus_type) _
            (visible_from-Returns index event_bus_type below) (λ seen e3. fail_if-Returns _ _)))

  check_event_handlers-Returns :
      (index : ℕ) (nodes : List ModuleNode)
      → index + length nodes ≤ length g.nodes
      → Returns (check_event_handlers g s index nodes)
  unfolding check_event_handlers
  check_event_handlers-Returns index [] h = tt
  check_event_handlers-Returns index (node ∷ nodes) h =
      Returns-bind (each (check_event_handler g s index node) node.metadata.event_handlers)
        (λ _. check_event_handlers g s (index + 1) nodes)
        (each-Returns (check_event_handler g s index node) node.metadata.event_handlers (
          All-of (λ x. Returns (check_event_handler g s index node x))
            (λ x. check_event_handler-Returns index node x (omega arith))
            node.metadata.event_handlers))
        (λ u e. check_event_handlers-Returns (index + 1) nodes (omega arith))

-- The scopes of a graph whose imports are in bounds.
scopes_of-Returns : (g : ModuleGraph) → AreInBounds g → Returns (scopes_of g)
unfolding scopes_of
scopes_of-Returns g bounds =
    let n = length g.nodes in
    let locals = map (local_types g) (range 0 n) in
    let empty : List (List ℕ) = map (λ _. []) (range 0 n) in
    let sized : length locals ≡ n = length-locals g in
    Returns-bind (collect_exports locals 0 g.nodes empty) _
      (collect_exports-Returns locals 0 g.nodes empty (omega (arith, sized))
        (length-range 0 n ∙ sym sized)
        (subst (λ k. All (λ node. AreBelow k node.imports) g.nodes) (sym sized) bounds))
      (λ x e1.
        let len = length-collect_exports locals 0 g.nodes empty x e1 ∙ length-range 0 n in
        Returns-bind (global_exports x 0 g.nodes) _
          (global_exports-Returns x 0 g.nodes (omega (arith, len))) (λ y e2. tt))

length-provided :
    (g : ModuleGraph) (rs : List ProviderRegistration) → length (map (key g) rs) ≡ length rs
length-provided g [] = refl
length-provided g (r ∷ rs) = omega (arith, length-provided g rs)

definitions-provided :
    (g : ModuleGraph) (rs : List ProviderRegistration)
    → All (HasDef g) rs
    → All (λ r. (d : ProviderDef) × (def g r ≡ some d) × In d.type_id (map (key g) rs)) rs
definitions-provided g [] h = tt
definitions-provided g (r ∷ rs) ((d, fd), h) =
    ((d, fd, inl (sym (key_of_def g r d fd))), widen rs (definitions-provided g rs h))
  where
    widen :
        (qs : List ProviderRegistration)
        → All (λ q. (d : ProviderDef) × (def g q ≡ some d) × In d.type_id (map (key g) rs)) qs
        → All (λ q. (d : ProviderDef) × (def g q ≡ some d) × In d.type_id (map (key g) (r ∷ rs))) qs
    widen [] h = tt
    widen (q ∷ qs) ((d, fd, i), h) = ((d, fd, inr i), widen qs h)

-- On every graph in which each import is the index of a module, and with every container, `preflight`
-- returns an order or an error: no index is out of bounds, and the fuel of the walk does not run out.
pub preflight-Returns :
    (g : ModuleGraph) (c : Option Container) → AreInBounds g → Returns (preflight g c)
unfolding preflight
preflight-Returns g c bounds =
    Returns-bind (collect_types g c (λ _. none) (definitions g)) _
      (collect_types-Returns g c (λ _. none) (definitions g) (definitions-HasDef g))
      (λ by_type typed. Returns-bind (scopes_of g) _ (scopes_of-Returns g bounds) (λ s e2.
        let a = scopes_of-AreScopes g s e2 in
        Returns-bind (each (check_registration g c by_type s) (definitions g)) _
          (each-Returns (check_registration g c by_type s) (definitions g)
            (checks by_type s a (definitions g) (definitions-HasDef g)))
          (λ u3 e3.
            Returns-bind (check_event_handlers g s 0 g.nodes) _
              (check_event_handlers-Returns g s bounds a 0 g.nodes (omega arith))
              (λ u4 e4. Returns-bind (check_owners g) _ (check_owners-Returns g) (λ u5 e5.
                Returns-bind
                  (schedule_all g c by_type (suc (length (definitions g))) (definitions g) start)
                  (λ w. done w.sorted) (walks by_type typed) (λ w e6. tt))))))
  where
    checks :
        (by_type : TypeMap) (s : Scopes) (a : AreScopes g s) (rs : List ProviderRegistration)
        → All (HasDef g) rs
        → All (λ r. Returns (check_registration g c by_type s r)) rs
    checks by_type s a [] h = tt
    checks by_type s a (r ∷ rs) (h, hs) =
        (check_registration-Returns g s bounds a c by_type r h, checks by_type s a rs hs)

    walks :
        (by_type : TypeMap)
        → collect_types g c (λ _. none) (definitions g) ≡ done by_type
        → Returns (schedule_all g c by_type (suc (length (definitions g))) (definitions g) start)
    walks by_type typed =
        let built =
          collect_types-Collected g c (λ _. none) by_type (definitions g) (definitions-HasDef g)
            (λ t r h. cc h) typed in
        let known : (t : ℕ) → by_type t ≢ none → In t (provided g) =
          λ t h. elim (built.sound t h) [ inl old ↦ absurd (old refl) | inr i ↦ i ] in
        schedule_all-Returns g c by_type built.index (provided g) known
          (suc (length (definitions g))) (definitions g) start
          (definitions-provided g (definitions g) (definitions-HasDef g))
          (start-IsSorted g c by_type)
          (omega (
            arith,
            count_open-le-length (provided g) start.states,
            length-provided g (definitions g),
          ))

-- What discovery makes has an order or an error.
discovered-Returns :
    (metadata_of : ℕ → ModuleMetadata) (u : List ℕ) (root : ModuleDef) (g : ModuleGraph)
    (c : Option Container)
    → IsGraph metadata_of u root g
    → Returns (preflight g c)
discovered-Returns metadata_of u root g c is_graph =
    preflight-Returns g c (IsGraph-AreInBounds metadata_of u root g is_graph)
