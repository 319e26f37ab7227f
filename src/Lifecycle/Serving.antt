-- ===== src/Lifecycle/Serving.antt =====
-- crates/caelix-core/src/module.rs: the invariant of a start that serves dependencies, and that a
-- rollback keeps the trace.
use caelix.Prelude.{
  ℕ, ◌≡◌, refl, sym, ◌∙◌, ◌≢◌, inl, inr, true, false, Bool-cases, Option, none, some, List, [], ◌∷◌,
  All, All-append, In, ◌==◌, ==_iff,
}
use mathlib.Core.List.{reverse}
use caelix.Errors.{HttpException, done, fail, panicked, out_of_fuel}
use caelix.Container.{
  ProviderValue, ProviderDef, Container, update, has, was_overridden, find_override,
  remove_override, pending_override,
}
use caelix.Graph.{ModuleGraph, def_by_type}
use caelix.Lifecycle.{
  Call, build, init, bootstrap, shutdown, World, Run, shut_down, rollback_each, rollback_graph,
  shut_down_def, shut_down_value, past_error, return_error,
}

-- A constructor saw a value for each of its provider's dependencies; a start calls no bootstrap hook.
abbrev pub BuiltReady : Call → Type 0
BuiltReady (build d s) = All (λ dep. has (s.services dep.type_id) ≡ true) d.dependencies
BuiltReady (init overridden t ok) = Unit
BuiltReady (bootstrap t) = ⊥
BuiltReady (shutdown t) = Unit

abbrev pub AllReady : World → Type 0
AllReady w = All BuiltReady w.calls

-- An override is found under the type that it builds.
abbrev pub Keyed : Container → Type 0
Keyed c = (t : ℕ) (o : ProviderDef) → pending_override c t ≡ some o → o.type_id ≡ t

pub find_override-remove_override :
    (m : List (ℕ × ProviderDef)) (t x : ℕ)
    → t ≢ x
    → find_override (remove_override m t) x ≡ find_override m x
find_override-remove_override [] t x ne = refl
find_override-remove_override ((k, d) ∷ m) t x ne = elim (Bool-cases (k == t)) [
  | inl same ↦
      let other : (k == x) ≡ false = elim (Bool-cases (k == x)) [
        | inl e ↦ absurd (ne (sym ((==_iff k t).0 same) ∙ (==_iff k x).0 e))
        | inr e ↦ e
      ] in
      rw (same, other) (find_override-remove_override m t x ne)
  | inr other ↦ elim (Bool-cases (k == x)) [
    | inl e ↦ rw (other, e)
    | inr e ↦ rw (other, e) (find_override-remove_override m t x ne)
  ]
]

pub has-update :
    (m : ℕ → Option ProviderValue) (k : ℕ) (v : ProviderValue) (t : ℕ)
    → has (m t) ≡ true
    → has (update m k v t) ≡ true
has-update m k v t h = elim (Bool-cases (k == t)) [ inl same ↦ rw same | inr other ↦ rw other h ]

pub has-update_self :
    (m : ℕ → Option ProviderValue) (k : ℕ) (v : ProviderValue) → has (update m k v k) ≡ true
has-update_self m k v = rw ((==_iff k k).1 refl)

pub shut_down-AllReady :
    (g : ModuleGraph) (t : ℕ) (w : World) → AllReady w → AllReady (shut_down g t w).1
unfolding shut_down
shut_down-AllReady g t w h = by_def (def_by_type g t)
  where
    by_value : (d : ProviderDef) (v : Option ProviderValue) → AllReady (shut_down_value d v w).1
    by_value d none = h
    by_value d (some v) = All-append BuiltReady w.calls _ h (tt, tt)

    by_def : (o : Option ProviderDef) → AllReady (shut_down_def o w).1
    by_def none = h
    by_def (some d) = by_value d (w.container.services d.type_id)

past_error-AllReady :
    (r : Run) (k : World → Run)
    → AllReady r.1
    → ((w : World) → AllReady w → AllReady (k w).1)
    → AllReady (past_error r k).1
past_error-AllReady (done u, w) k h f = f w h
past_error-AllReady (fail e, w) k h f = f w h
past_error-AllReady (panicked, w) k h f = h
past_error-AllReady (out_of_fuel, w) k h f = h

pub rollback_each-AllReady :
    (g : ModuleGraph) (ts : List ℕ) (w : World) → AllReady w → AllReady (rollback_each g ts w).1
unfolding rollback_each
rollback_each-AllReady g [] w h = h
rollback_each-AllReady g (t ∷ ts) w h =
    past_error-AllReady (shut_down g t w) (rollback_each g ts) (shut_down-AllReady g t w h)
      (rollback_each-AllReady g ts)

pub rollback_graph-AllReady :
    (g : ModuleGraph) (w : World) → AllReady w → AllReady (rollback_graph g w).1
unfolding rollback_graph
rollback_graph-AllReady g w h =
    rollback_each-AllReady g (reverse w.container.initialized_providers)
      (record w { container = record w.container { initialized_providers = [] } }) h

-- Behind the providers of the types `seen`, from the container `c`.
pub record Serves (c : Container) (seen : List ℕ) (w : World) : Type 0 where
  pub ready : AllReady w
  pub served : (t : ℕ) → In t seen → has (w.container.services t) ≡ true
  pub pending : (t : ℕ) → (In t seen → ⊥) → pending_override w.container t ≡ pending_override c t
  pub applied : (t : ℕ) → was_overridden w.container t ≡ true → In t seen
  pub kept : (t : ℕ) → has (c.services t) ≡ true → has (w.container.services t) ≡ true

abbrev pub ServesRun : Container → List ℕ → Run → Type 0
ServesRun c seen (done u, w) = Serves c seen w
ServesRun c seen (fail e, w) = AllReady w
ServesRun c seen (panicked, w) = AllReady w
ServesRun c seen (out_of_fuel, w) = AllReady w

return_error-ServesRun :
    (c : Container) (seen : List ℕ) (e : HttpException) (r : Run)
    → AllReady r.1
    → ServesRun c seen (return_error e r)
return_error-ServesRun c seen e (done u, w) h = h
return_error-ServesRun c seen e (fail x, w) h = h
return_error-ServesRun c seen e (panicked, w) h = h
return_error-ServesRun c seen e (out_of_fuel, w) h = h

-- A start that fails in a world leaves its trace.
pub rollback_graph-ServesRun :
    (g : ModuleGraph) (c : Container) (seen : List ℕ) (e : HttpException) (w : World)
    → AllReady w
    → ServesRun c seen (return_error e (rollback_graph g w))
rollback_graph-ServesRun g c seen e w h =
    return_error-ServesRun c seen e (rollback_graph g w) (rollback_graph-AllReady g w h)
