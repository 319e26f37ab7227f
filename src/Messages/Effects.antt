-- ===== src/Messages/Effects.antt =====
-- Asynchronous code with effects: a step takes the history of effects, the newest first, and leaves
-- a longer one beside its result. What the outside answers is a function of the history.
use caelix.Prelude.{
  ℕ, zero, suc, String, Option, none, some, List, ◌∷◌, ◌≡◌, refl, sym, ap, inl, inr, Option-cases,
}

pub data Result {ℓ κ} (E : Type κ) (A : Type ℓ) : Type (ℓ ⊔ κ) where
  ok : A → Result E A
  err : E → Result E A

-- `Result::and`
abbrev pub also : {E A : Type 0} → Result E A → Result E A → Result E A
also (ok a) r = r
also (err e) r = err e

abbrev pub Action : (X E A : Type 0) → Type 0
Action X E A = List X → Result E A × List X

-- `map_err`: what the outside refuses is an error.
abbrev pub answered : {E : Type 0} → (String → E) → Option String → Result E (Unit {0})
answered wrap none = ok tt
answered wrap (some e) = err (wrap e)

module _ {X E : Type 0} where
  abbrev pub pure : {A : Type 0} → A → Action X E A
  pure a h = (ok a, h)

  abbrev pub raise : {A : Type 0} → E → Action X E A
  raise e h = (err e, h)

  -- An effect with no answer.
  abbrev pub note : X → Action X E (Unit {0})
  note x h = (ok tt, x ∷ h)

  abbrev pub send : (String → E) → (List X → X → Option String) → X → Action X E (Unit {0})
  send wrap answer x h = (answered wrap (answer h x), x ∷ h)

  -- The result of a step as a value, which does not end the computation.
  abbrev pub attempt_of : {A : Type 0} → Action X E A → Action X E (Result E A)
  attempt_of m h = let (r, h') = m h in (ok r, h')

  abbrev pub lift : {A : Type 0} → Result E A → Action X E A
  lift r h = (r, h)

  infixl 5 ◌>>=◌ ◌>>◌
  abbrev pub continue :
      {A B : Type 0} → Result E A × List X → (A → Action X E B) → Result E B × List X
  continue (ok a, h) f = f a h
  continue (err e, h) f = (err e, h)

  abbrev pub ◌>>=◌ : {A B : Type 0} → Action X E A → (A → Action X E B) → Action X E B
  ◌>>=◌ m f h = continue (m h) f

  abbrev pub ◌>>◌ : {B : Type 0} → Action X E (Unit {0}) → Action X E B → Action X E B
  ◌>>◌ m k h = continue (m h) (λ _. k)

  abbrev pub times : ℕ → Action X E (Unit {0}) → Action X E (Unit {0})
  times zero m = pure tt
  times (suc n) m = m >> times n m

  -- Inversion of a bind that succeeds.
  pub continue-ok :
      {A B : Type 0} (m : Result E A × List X) (f : A → Action X E B) {b : B} {h' : List X}
      → continue m f ≡ (ok b, h')
      → (a : A) × (h : List X) × (m ≡ (ok a, h)) × (f a h ≡ (ok b, h'))
  continue-ok (ok a, h) f e = (a, h, refl, e)
  continue-ok (err x, h) f e = cc e

  -- An effect that succeeds was not refused.
  pub send-ok :
      (wrap : String → E) (answer : List X → X → Option String) (x : X) (h : List X) {u : Unit {0}}
      {h' : List X}
      → send wrap answer x h ≡ (ok u, h')
      → (answer h x ≡ none) × (h' ≡ x ∷ h)
  send-ok wrap answer x h e = elim (Option-cases (answer h x)) [
    | inl fine ↦ (fine, sym (ap (λ p. p.1) e))
    | inr (m, bad) ↦ cc (rw bad at e)
  ]
