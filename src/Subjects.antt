-- ===== src/Subjects.antt =====
-- crates/caelix-core/src/module.rs: the subjects that microservice handlers are registered for.
-- A subject is a text of tokens joined by dots; `*` stands for one token and a final `>` for one or
-- more.
pub mod Matching
pub mod Overlap
use caelix.Prelude.{
  ℕ, ◌+◌, String, Bool, true, false, not, ◌&&◌, ◌||◌, List, [], ◌∷◌, str_eq, ◌==◌, if◌then◌else◌,
  length, is_empty, has_char, any_char, is_whitespace, split,
}

-- The test of one token at `index` of `len` tokens.
pub valid_token : Bool → ℕ → ℕ → String → Bool
valid_token command len index token =
    not (is_empty token)
    && (not (has_char b'*' token) || (not command && str_eq token "*"))
    && (not (has_char b'>' token) || (not command && (str_eq token ">" && index + 1 == len)))

pub valid_tokens : Bool → ℕ → ℕ → List String → Bool
unfolding valid_token
valid_tokens command len index [] = true
valid_tokens command len index (token ∷ tokens) =
    valid_token command len index token && valid_tokens command len (index + 1) tokens

unfoldable pub valid_microservice_pattern : String → Bool → Bool
unfolding valid_tokens
valid_microservice_pattern pattern command =
    if is_empty pattern || any_char is_whitespace pattern
    then false
    else let tokens = split b'.' pattern in valid_tokens command (length tokens) 0 tokens

-- The loop over `index`, on the tokens that are left of each side.
pub intersect_from : List String → List String → Bool
intersect_from [] [] = true
intersect_from [] (right ∷ second) = false
intersect_from (left ∷ first) [] = false
intersect_from (left ∷ first) (right ∷ second) =
    let rest = intersect_from first second in
    if str_eq left ">" || str_eq right ">"
    then true
    else if str_eq left "*" || (str_eq right "*" || str_eq left right)
    then rest
    else false

unfoldable pub microservice_patterns_intersect : String → String → Bool
unfolding intersect_from
microservice_patterns_intersect first second = intersect_from (split b'.' first) (split b'.' second)
