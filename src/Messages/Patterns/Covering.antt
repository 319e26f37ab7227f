-- ===== src/Messages/Patterns/Covering.antt =====
-- crates/caelix-microservices/src/lib.rs: what the two pattern tests of the transports decide.
use caelix.Prelude.{
  String, ◌≡◌, refl, sym, subst, ◌↔◌, inl, inr, true, false, List, [], ◌∷◌, str_eq, str_eq_iff,
  str_eq_refl, Bool-cases, arith, if◌then◌else◌, split,
}
use caelix.Subjects.Matching.{
  Accepts, IsPattern, IsToken, literal-ne-tail, done, literal, any_one, any_tail,
}
use caelix.Messages.Patterns.{matches_from, nats_pattern_matches, covers_from, nats_pattern_covers}

Accepts-matches_from : (p s : List String) → Accepts p s → matches_from p s ≡ true
unfolding matches_from
Accepts-matches_from p s done = refl
Accepts-matches_from p s (literal {p = q} {ps = ps} {s = r} a) =
    ground (arith, Accepts-matches_from ps r a, str_eq_refl q)
Accepts-matches_from p s (any_one {p = q} {ps = ps} {s = r} e a) =
    ground (arith, Accepts-matches_from ps r a, str_eq_iff q "*")
Accepts-matches_from p s (any_tail {p = q} e) = ground (arith, str_eq_iff q ">")

-- A `>` in a valid pattern is its last token.
tail_last :
    (t : String) (rest : List String)
    → IsToken t rest
    → str_eq t ">" ≡ true
    → (t ≡ ">") × (rest ≡ [])
tail_last t rest (inl lit) e = absurd (literal-ne-tail t lit ((str_eq_iff t ">").0 e))
tail_last t rest (inr (inl star)) e = absurd (cc (rw star at e))
tail_last t rest (inr (inr h)) e = h

matches_from-Accepts : (p s : List String) → IsPattern p → matches_from p s ≡ true → Accepts p s
unfolding matches_from
matches_from-Accepts [] [] ip h = done
matches_from-Accepts [] (v ∷ s) ip h = cc h
matches_from-Accepts (q ∷ p) [] ip h = cc h
matches_from-Accepts (q ∷ p) (v ∷ s) ip h = elim (Bool-cases (str_eq q ">")) [
  | inl tail ↦
      let (tail_token, last) = tail_last q p ip.0 tail in
      subst (λ ps. Accepts (q ∷ ps) (v ∷ s)) (sym last) (any_tail tail_token)
  | inr f ↦ elim (Bool-cases (str_eq q "*")) [
    | inl star ↦ any_one ((str_eq_iff q "*").0 star) (matches_from-Accepts p s ip.1 (ground arith))
    | inr g ↦
        let same : str_eq v q ≡ true = ground arith in
        subst (λ t. Accepts (q ∷ p) (t ∷ s)) (sym ((str_eq_iff v q).0 same))
          (literal (matches_from-Accepts p s ip.1 (ground arith)))
  ]
]

-- Every token list that the declared pattern matches is matched by the configured one.
abbrev pub IsIncluded : (declared configured : List String) → Type 0
IsIncluded declared configured =
    (s : List String) → matches_from declared s ≡ true → matches_from configured s ≡ true

covers_sound : (c d : List String) → covers_from c d ≡ true → IsIncluded d c
unfolding covers_from matches_from
covers_sound [] [] h s m = m
covers_sound [] (y ∷ d) h s m = cc h
covers_sound (x ∷ c) [] h s m = cc h
covers_sound (x ∷ c) (y ∷ d) h [] m = cc m
covers_sound (x ∷ c) (y ∷ d) h (v ∷ s) m = elim (Bool-cases (str_eq x ">")) [
  | inl tail ↦ rw tail refl
  | inr ex ↦
      let ey : str_eq y ">" ≡ false = ground arith in
      let ms : matches_from d s ≡ true = ground arith in
      let cov : covers_from c d ≡ true = ground arith in
      let rest : matches_from c s ≡ true = covers_sound c d cov s ms in
      elim (Bool-cases (str_eq x "*")) [
        | inl star ↦ rw (ex, star) rest
        | inr plain ↦
            let same : x ≡ y = (str_eq_iff x y).0 (ground arith) in
            let not_star : str_eq y "*" ≡ false = subst (λ t. str_eq t "*" ≡ false) same plain in
            let value : str_eq v y ≡ true = ground arith in
            let value' : str_eq v x ≡ true = subst (λ t. str_eq v t ≡ true) (sym same) value in
            rw (ex, plain, value') rest
      ]
]

-- A pattern matches itself.
matches_self : (d : List String) → matches_from d d ≡ true
unfolding matches_from
matches_self [] = refl
matches_self (y ∷ d) = ground (arith, matches_self d, str_eq_refl y)

-- A token other than the given one.
fresh : String → String
fresh t = if str_eq "a" t then "b" else "a"

-- Only `>` covers `>`.
tail_not-IsIncluded :
    (x y : String) (c d : List String)
    → str_eq x ">" ≡ false
    → str_eq y ">" ≡ true
    → ¬ IsIncluded (y ∷ d) (x ∷ c)
unfolding matches_from
tail_not-IsIncluded x y [] d ex ey h =
    let one : matches_from (x ∷ []) ("a" ∷ "b" ∷ []) ≡ true = h ("a" ∷ "b" ∷ []) (ground arith) in
    ground arith
tail_not-IsIncluded x y (z ∷ c) d ex ey h =
    let one : matches_from (x ∷ z ∷ c) ("a" ∷ []) ≡ true = h ("a" ∷ []) (ground arith) in
    ground arith

covers_complete : (c d : List String) → IsIncluded d c → covers_from c d ≡ true
unfolding covers_from matches_from
covers_complete [] [] h = refl
covers_complete [] (y ∷ d) h = cc (h (y ∷ d) (matches_self (y ∷ d)))
covers_complete (x ∷ c) [] h = cc (h [] refl)
covers_complete (x ∷ c) (y ∷ d) h = elim (Bool-cases (str_eq x ">")) [
  | inl tail ↦ ground arith
  | inr ex ↦ elim (Bool-cases (str_eq y ">")) [
    | inl ey ↦ absurd (tail_not-IsIncluded x y c d ex ey h)
    | inr ey ↦
        let rest : IsIncluded d c = λ s m.
          let all : matches_from (x ∷ c) (y ∷ s) ≡ true =
            h (y ∷ s) (ground (arith, str_eq_refl y)) in
          ground arith in
        let same : matches_from (x ∷ c) (y ∷ d) ≡ true = h (y ∷ d) (matches_self (y ∷ d)) in
        ground (arith, covers_complete c d rest, str_eq_iff y x, str_eq_iff x y)
  ]
]

-- The configured subjects of a stream cover a declared pattern exactly when every subject that the
-- declared pattern matches is matched by the configured one.
pub nats_pattern_covers_iff :
    (configured declared : String)
    → (nats_pattern_covers configured declared ≡ true)
      ↔ IsIncluded (split b'.' declared) (split b'.' configured)
unfolding nats_pattern_covers
nats_pattern_covers_iff configured declared = (
  covers_sound (split b'.' configured) (split b'.' declared),
  covers_complete (split b'.' configured) (split b'.' declared),
)

-- The dispatch test of a valid pattern accepts exactly the subjects that the pattern stands for.
pub nats_pattern_matches_iff :
    (pattern subject : String)
    → IsPattern (split b'.' pattern)
    → (nats_pattern_matches pattern subject ≡ true)
      ↔ Accepts (split b'.' pattern) (split b'.' subject)
unfolding nats_pattern_matches
nats_pattern_matches_iff pattern subject valid = (
  matches_from-Accepts (split b'.' pattern) (split b'.' subject) valid,
  Accepts-matches_from (split b'.' pattern) (split b'.' subject),
)
