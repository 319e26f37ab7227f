-- ===== src/Messages/History.antt =====
-- Histories of effects: counting them, and repetitions.
use caelix.Prelude.{
  ℕ, zero, suc, ◌≡◌, refl, ◌∙◌, Bool, false, Option, none, some, List, [], ◌∷◌, if◌then◌else◌,
}

module _ {X : Type 0} where
  abbrev pub tally : (X → Bool) → List X → ℕ
  tally p [] = 0
  tally p (x ∷ h) = if p x then suc (tally p h) else tally p h

  abbrev pub newest : List X → Option X
  newest [] = none
  newest (x ∷ h) = some x

  abbrev pub repeated : ℕ → X → List X → List X
  repeated zero x h = h
  repeated (suc n) x h = repeated n x (x ∷ h)

  pub tally-repeated :
      (p : X → Bool) (n : ℕ) (x : X) (h : List X)
      → p x ≡ false
      → tally p (repeated n x h) ≡ tally p h
  tally-repeated p zero x h e = refl
  tally-repeated p (suc n) x h e = tally-repeated p n x (x ∷ h) e ∙ rw e refl
