-- ===== src/Subjects/Overlap.antt =====
-- crates/caelix-core/src/module.rs: the overlap test and the validation of subject patterns.
use caelix.Prelude.{
  ℕ, suc, ◌+◌, String, ◌≡◌, refl, ◌↔◌, inl, inr, Bool, true, List, [], ◌∷◌, str_eq_iff, arith,
  length, All, has_char, split, Bool-cases, and-eq-true, ==_iff, ap,
}
use caelix.Subjects.{
  valid_token, valid_tokens, valid_microservice_pattern, microservice_patterns_intersect,
}
use caelix.Subjects.Matching.{
  Accepts, IsLiteral, IsToken, IsPattern, intersect_complete, literal-ne-star, literal-ne-tail,
  intersect_sound, done, literal, any_one, any_tail,
}

nil_of_length : (tokens : List String) → length tokens ≡ 0 → tokens ≡ []
nil_of_length [] e = refl
nil_of_length (t ∷ tokens) e = absurd (omega arith)

valid_token-IsToken :
    (command : Bool) (len index : ℕ) (t : String) (rest : List String)
    → index + suc (length rest) ≡ len
    → valid_token command len index t ≡ true
    → IsToken t rest
unfolding valid_token
valid_token-IsToken command len index t rest e h = elim (Bool-cases (has_char b'*' t)) [
  | inl star ↦ inr (inl (ground (arith, str_eq_iff t "*")))
  | inr plain ↦ elim (Bool-cases (has_char b'>' t)) [
    | inl tail ↦ inr (
        inr (
          ground (arith, str_eq_iff t ">"),
          nil_of_length rest (ground (arith, ==_iff (index + 1) len)),
        ))
    | inr none ↦ inl (ground arith, plain, none)
  ]
]

valid_tokens-IsPattern :
    (command : Bool) (len index : ℕ) (tokens : List String)
    → index + length tokens ≡ len
    → valid_tokens command len index tokens ≡ true
    → IsPattern tokens
unfolding valid_tokens
valid_tokens-IsPattern command len index [] e h = tt
valid_tokens-IsPattern command len index (t ∷ tokens) e h =
    let (here, there) =
      and-eq-true (valid_token command len index t) (valid_tokens command len (index + 1) tokens)
        h in
    (
      valid_token-IsToken command len index t tokens e here,
      valid_tokens-IsPattern command len (index + 1) tokens (omega arith) there,
    )

pub valid_microservice_pattern-IsPattern :
    (p : String) (command : Bool)
    → valid_microservice_pattern p command ≡ true
    → IsPattern (split b'.' p)
unfolding valid_microservice_pattern
valid_microservice_pattern-IsPattern p command h =
    valid_tokens-IsPattern command (length (split b'.' p)) 0 (split b'.' p) (omega arith)
      (ground arith)

-- For two patterns that pass validation, the overlap test answers true exactly when there is a
-- subject without wildcards that both patterns accept.
pub patterns_intersect_iff :
    (first second : String) (c d : Bool)
    → valid_microservice_pattern first c ≡ true
    → valid_microservice_pattern second d ≡ true
    → (microservice_patterns_intersect first second ≡ true) ↔ (
        (s : List String) × All IsLiteral s
        × Accepts (split b'.' first) s
        × Accepts (split b'.' second) s)
unfolding microservice_patterns_intersect
patterns_intersect_iff first second c d p q = (
  intersect_sound (split b'.' first) (split b'.' second)
      (valid_microservice_pattern-IsPattern first c p)
      (valid_microservice_pattern-IsPattern second d q),
  λ (s, all, a, b). intersect_complete (split b'.' first) (split b'.' second) s a b,
)

valid_token-IsLiteral :
    (len index : ℕ) (t : String) → valid_token true len index t ≡ true → IsLiteral t
unfolding valid_token
valid_token-IsLiteral len index t h = (ground arith, ground arith, ground arith)

valid_tokens-IsLiteral :
    (len index : ℕ) (tokens : List String)
    → valid_tokens true len index tokens ≡ true
    → All IsLiteral tokens
unfolding valid_tokens
valid_tokens-IsLiteral len index [] h = tt
valid_tokens-IsLiteral len index (t ∷ tokens) h =
    let (here, there) =
      and-eq-true (valid_token true len index t) (valid_tokens true len (index + 1) tokens) h in
    (valid_token-IsLiteral len index t here, valid_tokens-IsLiteral len (index + 1) tokens there)

Accepts-of_IsLiteral : (p s : List String) → All IsLiteral p → Accepts p s → p ≡ s
Accepts-of_IsLiteral p s h done = refl
Accepts-of_IsLiteral p s h (literal {p = t} {ps = ps} a) =
    ap (◌∷◌ t) (Accepts-of_IsLiteral ps _ h.1 a)
Accepts-of_IsLiteral p s h (any_one {p = t} e a) = absurd (literal-ne-star t h.0 e)
Accepts-of_IsLiteral p s h (any_tail {p = t} e) = absurd (literal-ne-tail t h.0 e)

-- A command pattern that passes validation accepts its own tokens and no other subject.
pub command_pattern_exact :
    (p : String) (s : List String)
    → valid_microservice_pattern p true ≡ true
    → Accepts (split b'.' p) s
    → split b'.' p ≡ s
unfolding valid_microservice_pattern
command_pattern_exact p s h a =
    Accepts-of_IsLiteral (split b'.' p) s
      (valid_tokens-IsLiteral (length (split b'.' p)) 0 (split b'.' p) (ground arith)) a
