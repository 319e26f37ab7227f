-- ===== src/Messages/Patterns.antt =====
-- crates/caelix-microservices/src/lib.rs: subjects and subject patterns of the transports. The loops
-- over `index` are on the tokens that are left of each side.
pub mod Covering
use caelix.Prelude.{
  String, Bool, true, false, not, ◌&&◌, ◌||◌, List, [], ◌∷◌, str_eq, if◌then◌else◌, is_empty,
  any_char, is_whitespace, split,
}

abbrev some_left : List String → Bool
some_left [] = false
some_left (t ∷ ts) = true

pub matches_from : List String → List String → Bool
matches_from [] subject = not (some_left subject)
matches_from (token ∷ pattern) [] = false
matches_from (token ∷ pattern) (value ∷ subject) =
    let rest = matches_from pattern subject in
    if str_eq token ">"
    then true
    else if str_eq token "*" || str_eq value token
    then rest
    else false

unfoldable pub nats_pattern_matches : String → String → Bool
unfolding matches_from
nats_pattern_matches pattern subject = matches_from (split b'.' pattern) (split b'.' subject)

pub covers_from : List String → List String → Bool
covers_from [] [] = true
covers_from [] (d ∷ declared) = false
covers_from (c ∷ configured) [] = false
covers_from (c ∷ configured) (d ∷ declared) =
    let rest = covers_from configured declared in
    if str_eq c ">"
    then true
    else if str_eq d ">"
    then false
    else if str_eq c "*" || str_eq c d
    then rest
    else false

unfoldable pub nats_pattern_covers : String → String → Bool
unfolding covers_from
nats_pattern_covers configured declared = covers_from (split b'.' configured) (split b'.' declared)

pub exact_tokens : List String → Bool
exact_tokens [] = true
exact_tokens (t ∷ tokens) =
    (not (is_empty t) && (not (str_eq t "*") && not (str_eq t ">"))) && exact_tokens tokens

unfoldable pub valid_nats_subject : String → Bool
unfolding exact_tokens
valid_nats_subject subject =
    not (is_empty subject)
    && (not (any_char is_whitespace subject) && exact_tokens (split b'.' subject))
