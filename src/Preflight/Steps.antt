-- ===== src/Preflight/Steps.antt =====
-- crates/caelix-core/src/module.rs: the steps of a `preflight` that succeeds, and what the scopes of
-- a graph are.
use caelix.Prelude.{
  ℕ, zero, suc, ◌+◌, ◌≤◌, ◌<◌, ◌≡◌, refl, sym, ap, subst, Bool, ◌∙◌, Option, none, List, [], map,
  arith, length,
}
use caelix.Errors.{done, >>=-eq-done}
use caelix.Container.{Container, contains}
use caelix.Graph.{ModuleGraph, ProviderRegistration, definitions, local_types, range}
use caelix.Visibility.{
  TypeMap, Scopes, contains_at, any_import, visible, collect_types, collect_exports, global_exports,
  each, check_registration, check_event_handlers,
}
use caelix.Visibility.Sets.{
  in_set, imports_of, contains_at-in_set, or_then-eq-done, any_import-any_in_set,
}
use caelix.Visibility.Exports.{in_set-collect_exports, length-collect_exports}
use caelix.Visibility.Reexports.{MayExportFrom, collect_exports-MayExport}
use caelix.Visibility.Reference.{
  exported, any_exported, visible_in, globally_exported, exported_from-eq-exported, in_set-locals,
  in_set-empty, contains-global_exports, any_in_set-eq-any_exported,
}
use caelix.Owners.{check_owners}
use caelix.Schedule.{Walk, start, schedule_all}
use caelix.Preflight.{scopes_of, preflight}

pub record Steps (g : ModuleGraph) (c : Option Container) (order : List ProviderRegistration)
    : Type 0 where
  pub by_type : TypeMap
  pub scopes : Scopes
  pub walk : Walk
  pub typed : collect_types g c (λ _. none) (definitions g) ≡ done by_type
  pub scoped : scopes_of g ≡ done scopes
  pub checked : each (check_registration g c by_type scopes) (definitions g) ≡ done tt
  pub handled : check_event_handlers g scopes 0 g.nodes ≡ done tt
  pub owned : check_owners g ≡ done tt
  pub scheduled :
      schedule_all g c by_type (suc (length (definitions g))) (definitions g) start ≡ done walk
  pub sorted : walk.sorted ≡ order

pub preflight-Steps :
    (g : ModuleGraph) (c : Option Container) (order : List ProviderRegistration)
    → preflight g c ≡ done order
    → Steps g c order
unfolding preflight
preflight-Steps g c order e =
    let (by_type, e1, r1) = >>=-eq-done (collect_types g c (λ _. none) (definitions g)) _ e in
    let (s, e2, r2) = >>=-eq-done (scopes_of g) _ r1 in
    let (u3, e3, r3) = >>=-eq-done (each (check_registration g c by_type s) (definitions g)) _ r2 in
    let (u4, e4, r4) = >>=-eq-done (check_event_handlers g s 0 g.nodes) _ r3 in
    let (u5, e5, r5) = >>=-eq-done (check_owners g) _ r4 in
    let (w, e6, r6) =
      >>=-eq-done (schedule_all g c by_type (suc (length (definitions g))) (definitions g) start) _
        r5 in
    record {
      by_type = by_type;
      scopes = s;
      walk = w;
      typed = e1;
      scoped = e2;
      checked = e3;
      handled = e4;
      owned = e5;
      scheduled = e6;
      sorted = cc r6;
    }

pub length-range : (first n : ℕ) → length (map {B = List ℕ} (λ _. []) (range first n)) ≡ n
length-range first zero = refl
length-range first (suc n) = ap suc (length-range (first + 1) n)

pub length-locals :
    (g : ModuleGraph) → length (map (local_types g) (range 0 (length g.nodes))) ≡ length g.nodes
length-locals g = go 0 (length g.nodes)
  where
    go : (first n : ℕ) → length (map (local_types g) (range first n)) ≡ n
    go first zero = refl
    go first (suc n) = ap suc (go (first + 1) n)

-- What the scopes of a graph are.
pub record AreScopes (g : ModuleGraph) (s : Scopes) : Type 0 where
  pub locals : s.locals ≡ map (local_types g) (range 0 (length g.nodes))
  pub sized : length s.exports ≡ length g.nodes
  pub exports : (j t : ℕ) → in_set s.exports j t ≡ exported g j t
  pub globals : (t : ℕ) → contains s.globals t ≡ globally_exported g.nodes t
  pub may_export : MayExportFrom s.locals s.exports 0 g.nodes

pub scopes_of-AreScopes : (g : ModuleGraph) (s : Scopes) → scopes_of g ≡ done s → AreScopes g s
unfolding scopes_of
scopes_of-AreScopes g s e =
    let n = length g.nodes in
    let locals = map (local_types g) (range 0 n) in
    let empty : List (List ℕ) = map (λ _. []) (range 0 n) in
    let (x, e1, r1) = >>=-eq-done (collect_exports locals 0 g.nodes empty) _ e in
    let (globals, e2, r2) =
      >>=-eq-done (global_exports x 0 g.nodes)
        (λ y. done (record { locals = locals; exports = x; globals = y })) r1 in
    let fits : 0 + length g.nodes ≤ length empty = omega (arith, length-range 0 n) in
    let exports : (j t : ℕ) → in_set x j t ≡ exported g j t = λ j t.
      in_set-collect_exports locals 0 g.nodes empty x j t fits e1
      ∙ rw (in_set-empty 0 n j t) (exported_from-eq-exported g j t) in
    subst (AreScopes g) (cc r2) (record {
      locals = refl;
      sized = length-collect_exports locals 0 g.nodes empty x e1 ∙ length-range 0 n;
      exports = exports;
      globals = λ t.
          contains-global_exports x 0 g.nodes t globals
            (λ k. let z : 0 + k ≡ k = omega arith in ap (λ i. in_set x i t) z ∙ exports k t) e2;
      may_export = collect_exports-MayExport locals 0 g.nodes empty x fits e1;
    })

pub local-eq :
    (g : ModuleGraph) (s : Scopes) (index t : ℕ)
    → AreScopes g s
    → index < length g.nodes
    → in_set s.locals index t ≡ contains (local_types g index) t
local-eq g s index t a h = rw a.locals (in_set-locals g index t h)

-- What `visible` returns is what the declarations say.
pub visible-eq-visible_in :
    (g : ModuleGraph) (s : Scopes) (index t : ℕ) {b : Bool}
    → AreScopes g s
    → index < length g.nodes
    → visible g s index t ≡ done b
    → visible_in g index t ≡ b
unfolding visible
visible-eq-visible_in g s index t a h e =
    or_then-eq-done (contains_at s.locals index t) _ (contains (local_types g index) t) _ e
      (λ v k. sym (local-eq g s index t a h) ∙ contains_at-in_set s.locals index t k)
      (λ w k.
        or_then-eq-done (done (contains s.globals t)) (any_import g s.exports index t)
          (globally_exported g.nodes t) (any_exported g (imports_of g index) t) k
          (λ v l. sym (a.globals t) ∙ cc l)
          (λ v l.
            sym (any_in_set-eq-any_exported g s.exports (imports_of g index) t (λ j. a.exports j t))
            ∙ any_import-any_in_set g s.exports index t l))
