-- ===== src/Prelude/Text.antt =====
-- Text over code points: the pieces of Rust's `str` that the program uses.
use Prim.Native.Nat.{ℕ, ◌+◌}
use Prim.Native.Char.{Char, code}
use Prim.Native.String.{String, [], ◌∷◌}
use mathlib.Core.Bool.{Bool, true, false, ◌||◌, ◌&&◌}
use mathlib.Core.List.{List}
use caelix.Prelude.Tests.{◌==◌, leb, if◌then◌else◌}

-- `str::is_empty`
abbrev pub is_empty : String → Bool
is_empty [] = true
is_empty (c ∷ s) = false

-- `str::len`, which counts the bytes of UTF-8
abbrev pub byte_len : String → ℕ
byte_len [] = 0
byte_len (c ∷ s) =
    (if leb (code c) 0x7f
      then 1
      else if leb (code c) 0x7ff
      then 2
      else if leb (code c) 0xffff
      then 3
      else 4)
    + byte_len s

-- `str::contains` of one character
abbrev pub has_char : ℕ → String → Bool
has_char k [] = false
has_char k (c ∷ s) = code c == k || has_char k s

abbrev pub any_char : (Char → Bool) → String → Bool
any_char p [] = false
any_char p (c ∷ s) = p c || any_char p s

abbrev has_prefix : String → String → Bool
has_prefix [] s = true
has_prefix (c ∷ p) [] = false
has_prefix (c ∷ p) (d ∷ s) = code c == code d && has_prefix p s

-- `str::contains` of a text
abbrev pub has_text : String → String → Bool
has_text p [] = is_empty p
has_text p (c ∷ s) = has_prefix p (c ∷ s) || has_text p s

-- `str::starts_with` of one character
abbrev pub starts_with : ℕ → String → Bool
starts_with k [] = false
starts_with k (c ∷ s) = code c == k

abbrev extend : Char → List String → List String
extend c List.[] = List.◌∷◌ (c ∷ "") List.[]
extend c (List.◌∷◌ t ts) = List.◌∷◌ (c ∷ t) ts

-- `str::split` at one character: a text of n separators has n + 1 pieces.
abbrev pub split : ℕ → String → List String
split k [] = List.◌∷◌ "" List.[]
split k (c ∷ s) = let rest = split k s in if code c == k then List.◌∷◌ "" rest else extend c rest

-- `char::is_whitespace`, the code points with the Unicode property White_Space
abbrev pub is_whitespace : Char → Bool
is_whitespace ch =
    let c = code ch in
    (leb 9 c && leb c 13)
    || c == 0x20
    || c == 0x85
    || c == 0xa0
    || c == 0x1680
    || (leb 0x2000 c && leb c 0x200a)
    || c == 0x2028
    || c == 0x2029
    || c == 0x202f
    || c == 0x205f
    || c == 0x3000
