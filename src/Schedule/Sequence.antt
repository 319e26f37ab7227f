-- ===== src/Schedule/Sequence.antt =====
-- crates/caelix-core/src/module.rs: what a construction order of providers is, for the types that
-- are `Known` to have a provider.
use caelix.Prelude.{ℕ, ◌≡◌, refl, Option, none, some, List, [], ◌∷◌, ◌++◌, In, All}
use caelix.Container.{ProviderDef, ProviderDependency, Container}
use caelix.Graph.{ModuleGraph, ProviderRegistration, def}
use caelix.Visibility.{effective}

module _ (g : ModuleGraph) where
  -- The type of a registration.
  abbrev pub key : ProviderRegistration → ℕ
  key r = elim (def g r) [ none ↦ 0 | some d ↦ d.type_id ]

  -- The types seen after a list of registrations.
  abbrev pub after : List ℕ → List ProviderRegistration → List ℕ
  after seen [] = seen
  after seen (r ∷ rs) = after (key r ∷ seen) rs

  pub after-concat :
      (seen : List ℕ) (rs : List ProviderRegistration) (r : ProviderRegistration)
      → after seen (rs ++ r ∷ []) ≡ key r ∷ after seen rs
  after-concat seen [] r = refl
  after-concat seen (q ∷ rs) r = after-concat (key q ∷ seen) rs r

  pub key_of_def :
      (r : ProviderRegistration) (d : ProviderDef) → def g r ≡ some d → key r ≡ d.type_id
  key_of_def r d fd = rw (fd, key)

module _ (g : ModuleGraph) (c : Option Container) (Known : ℕ → Type 0) where
  -- Each dependency that has a provider is among the types `seen`.
  abbrev pub Behind : List ℕ → List ProviderDependency → Type 0
  Behind seen deps = All (λ dep. Known dep.type_id → In dep.type_id seen) deps

  pub record Placed (seen : List ℕ) (r : ProviderRegistration) : Type 0 where
    pub declared : ProviderDef
    pub found : def g r ≡ some declared
    pub fresh : In declared.type_id seen → ⊥
    pub behind : Behind seen (effective c declared).dependencies

  -- Each type stands once, behind those that it depends on.
  abbrev pub Ordered : List ℕ → List ProviderRegistration → Type 0
  Ordered seen [] = Unit
  Ordered seen (r ∷ rs) = Placed seen r × Ordered (key g r ∷ seen) rs

  pub Ordered-concat :
      (seen : List ℕ) (rs : List ProviderRegistration) (r : ProviderRegistration)
      → Ordered seen rs
      → Placed (after g seen rs) r
      → Ordered seen (rs ++ r ∷ [])
  Ordered-concat seen [] r o p = (p, tt)
  Ordered-concat seen (q ∷ rs) r (h, o) p = (h, Ordered-concat (key g q ∷ seen) rs r o p)

module _ (g : ModuleGraph) (c : Option Container) {Known More : ℕ → Type 0}
    (sub : (t : ℕ) → More t → Known t) where
  Behind-mono :
      (seen : List ℕ) (deps : List ProviderDependency)
      → Behind g c Known seen deps
      → Behind g c More seen deps
  Behind-mono seen [] b = tt
  Behind-mono seen (dep ∷ deps) (h, b) = (λ m. h (sub dep.type_id m), Behind-mono seen deps b)

  pub Ordered-mono :
      (seen : List ℕ) (rs : List ProviderRegistration)
      → Ordered g c Known seen rs
      → Ordered g c More seen rs
  Ordered-mono seen [] o = tt
  Ordered-mono seen (r ∷ rs) (p, o) = (
    record {
      declared = p.declared;
      found = p.found;
      fresh = p.fresh;
      behind = Behind-mono seen (effective c p.declared).dependencies p.behind;
    },
    Ordered-mono (key g r ∷ seen) rs o,
  )
