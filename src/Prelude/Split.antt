-- ===== src/Prelude/Split.antt =====
-- A text is determined by its pieces.
use Prim.Native.Nat.{ℕ}
use Prim.Native.Char.{Char, code}
use Prim.Native.String.{String}
use mathlib.Core.Path.{◌≡◌, refl, sym, ap, ap₂, ◌∙◌}
use mathlib.Core.Logic.{inl, inr}
use mathlib.Core.List.{List, [], ◌∷◌}
use text.Mathlib.TextEquality.{Char-path}
use caelix.Prelude.Tests.{◌==◌, ==_iff, Bool-cases}
use caelix.Prelude.Text.{split}

-- The pieces with the separator `sep` between them.
glue : Char → String → List String → String
glue sep String.[] [] = ""
glue sep String.[] (u ∷ us) = String.◌∷◌ sep (glue sep u us)
glue sep (String.◌∷◌ c t) ts = String.◌∷◌ c (glue sep t ts)

unsplit : Char → List String → String
unfolding glue
unsplit sep [] = ""
unsplit sep (t ∷ ts) = glue sep t ts

split-ne-nil : (k : ℕ) (s : String) → (t : String) × (ts : List String) × (split k s ≡ t ∷ ts)
split-ne-nil k String.[] = ("", [], refl)
split-ne-nil k (String.◌∷◌ c s) =
    let (t, ts, e) = split-ne-nil k s in
    elim (Bool-cases (code c == k)) [
      | inl sep ↦ ("", split k s, rw sep)
      | inr other ↦ (String.◌∷◌ c t, ts, rw (other, e))
    ]

unsplit-split : (sep : Char) (s : String) → unsplit sep (split (code sep) s) ≡ s
unfolding unsplit
unsplit-split sep String.[] = refl
unsplit-split sep (String.◌∷◌ c s) =
    let (t, ts, e) = split-ne-nil (code sep) s in
    let ih : unsplit sep (t ∷ ts) ≡ s = ap (unsplit sep) (sym e) ∙ unsplit-split sep s in
    elim (Bool-cases (code c == code sep)) [
      | inl same ↦
          rw (same, e)
            (ap₂ String.◌∷◌ (sym (Char-path c sep ((==_iff (code c) (code sep)).0 same))) ih)
      | inr other ↦ rw (other, e) (ap (String.◌∷◌ c) ih)
    ]

pub split_injective : (sep : Char) (s u : String) → split (code sep) s ≡ split (code sep) u → s ≡ u
split_injective sep s u e = sym (unsplit-split sep s) ∙ (ap (unsplit sep) e ∙ unsplit-split sep u)
