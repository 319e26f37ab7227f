-- ===== src/Startup/Build.antt =====
-- crates/caelix-core/src/module.rs: what `build_container_with_overrides` leaves.
use caelix.Prelude.{
  ℕ, ◌≡◌, sym, subst, ◌∙◌, inl, inr, Bool-cases, ◌==◌, ==_iff, some, List, [], ◌∷◌, AllDistinct,
}
use caelix.Errors.{Outcome, done, fail, panicked, out_of_fuel}
use caelix.Container.{Container, ProviderDef, new, find_override}
use caelix.Graph.{ProviderRegistration, ModuleGraph}
use caelix.Preflight.{preflight}
use caelix.Lifecycle.{World, Run}
use caelix.Lifecycle.Trace.{bootstrapped}
use caelix.Lifecycle.Live.{Live, RolledBack, Halted}
use caelix.Lifecycle.Serving.{Keyed, find_override-remove_override}
use caelix.Startup.{insert, overrides, seed_overrides}

KeyedMap : List (ℕ × ProviderDef) → Type 0
KeyedMap m = (t : ℕ) (o : ProviderDef) → find_override m t ≡ some o → o.type_id ≡ t

insert-KeyedMap :
    (m : List (ℕ × ProviderDef)) (d : ProviderDef) → KeyedMap m → KeyedMap (insert m d)
unfolding KeyedMap
insert-KeyedMap m d k t o e = elim (Bool-cases (d.type_id == t)) [
  | inl here ↦
      let same : some d ≡ some o = rw here at e in
      let od : d ≡ o = cc same in subst (λ x. x.type_id ≡ t) od ((==_iff d.type_id t).0 here)
  | inr there ↦ k t o (
      sym (find_override-remove_override m d.type_id t (λ p. cc (there, (==_iff d.type_id t).1 p)))
      ∙ (rw there at e))
]

overrides-KeyedMap :
    (m : List (ℕ × ProviderDef)) (ds : List ProviderDef) → KeyedMap m → KeyedMap (overrides m ds)
overrides-KeyedMap m [] k = k
overrides-KeyedMap m (d ∷ ds) k = overrides-KeyedMap (insert m d) ds (insert-KeyedMap m d k)

-- `ProviderOverrides` finds an override under the type that it builds.
pub overrides-Keyed : (ds : List ProviderDef) → Keyed (seed_overrides new (overrides [] ds))
unfolding KeyedMap
overrides-Keyed ds = overrides-KeyedMap [] ds (λ t o h. cc h)

-- What a build leaves: bootstrap hooks ran at most once; behind an error, the shutdown hooks of
-- exactly what was started ran, in reverse order; a panic of user code stops nothing, or it is that of
-- a shutdown hook, behind some of those; and else nothing was stopped.
abbrev pub Built : ModuleGraph → Run → Type 0
Built g (done u, w) = Live g w × AllDistinct (bootstrapped w.calls)
Built g (fail e, w) = RolledBack g w × AllDistinct (bootstrapped w.calls)
Built g (panicked, w) = Halted g w × AllDistinct (bootstrapped w.calls)
Built g (out_of_fuel, w) = Halted g w × AllDistinct (bootstrapped w.calls)

module _ (g : ModuleGraph) where
  -- The checks between initialization and bootstrap run the same `preflight` as the bootstrap.
  Prechecked : World → Outcome (Unit {0}) → Type 0
  Prechecked w m =
      m ≡ done tt
      → (order : List ProviderRegistration) × (preflight g (some w.container) ≡ done order)
