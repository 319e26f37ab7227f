-- ===== src/Subjects/Matching.antt =====
-- crates/caelix-core/src/module.rs: what a pattern of subject tokens accepts, and what the overlap
-- test tells of two token lists.
use caelix.Prelude.{
  String, ◌≡◌, refl, sym, ◌≢◌, ◌⊎◌, inl, inr, true, false, List, [], ◌∷◌, str_eq, str_eq_iff,
  str_eq_refl, arith, All, has_char, is_empty, Bool-cases, ◌||◌, if◌then◌else◌, subst,
}
use caelix.Subjects.{intersect_from}

-- `Accepts pattern subject`, over tokens.
pub data Accepts : List String → List String → Type 0 where
  done : Accepts [] []
  literal : {p : String} {ps s : List String} → Accepts ps s → Accepts (p ∷ ps) (p ∷ s)
  any_one : {p t : String} {ps s : List String} → p ≡ "*" → Accepts ps s → Accepts (p ∷ ps) (t ∷ s)
  any_tail : {p t : String} {s : List String} → p ≡ ">" → Accepts (p ∷ []) (t ∷ s)

-- A token with no wildcard.
abbrev pub IsLiteral : String → Type 0
IsLiteral t = (is_empty t ≡ false) × (has_char b'*' t ≡ false) × (has_char b'>' t ≡ false)

-- A token that an event pattern may hold: `>` is last.
abbrev pub IsToken : String → List String → Type 0
IsToken t rest = IsLiteral t ⊎ ((t ≡ "*") ⊎ ((t ≡ ">") × (rest ≡ [])))

abbrev pub IsPattern : List String → Type 0
IsPattern [] = Unit
IsPattern (t ∷ rest) = IsToken t rest × IsPattern rest

pub intersect_complete :
    (first second s : List String)
    → Accepts first s
    → Accepts second s
    → intersect_from first second ≡ true
unfolding intersect_from
intersect_complete first second s done done = refl
intersect_complete first second s (literal {p = p} {ps = ps} a) (literal {ps = qs} b) =
    ground (arith, intersect_complete ps qs _ a b, str_eq_refl p)
intersect_complete first second s (literal {p = p} {ps = ps} a) (any_one {p = q} {ps = qs} e b) =
    ground (arith, intersect_complete ps qs _ a b, str_eq_iff q "*")
intersect_complete first second s (literal {p = p} a) (any_tail {p = q} e) =
    ground (arith, str_eq_iff q ">")
intersect_complete first second s (any_one {p = p} {ps = ps} e a) (literal {ps = qs} b) =
    ground (arith, intersect_complete ps qs _ a b, str_eq_iff p "*")
intersect_complete first second s (any_one {p = p} {ps = ps} e a) (any_one {p = q} {ps = qs} e' b) =
    ground (arith, intersect_complete ps qs _ a b, str_eq_iff p "*")
intersect_complete first second s (any_one e a) (any_tail {p = q} e') =
    ground (arith, str_eq_iff q ">")
intersect_complete first second s (any_tail {p = p} e) (literal b) =
    ground (arith, str_eq_iff p ">")
intersect_complete first second s (any_tail {p = p} e) (any_one e' b) =
    ground (arith, str_eq_iff p ">")
intersect_complete first second s (any_tail {p = p} e) (any_tail e') =
    ground (arith, str_eq_iff p ">")

-- The literal that stands for a token in a common subject.
pub instantiate : String → String
instantiate t = if str_eq t "*" || str_eq t ">" then "x" else t

pub plain_token :
    (t : String) (rest : List String)
    → IsToken t rest
    → (str_eq t "*" || str_eq t ">") ≡ false
    → IsLiteral t
plain_token t rest (inl lit) plain = lit
plain_token t rest (inr (inl star)) plain = absurd (ground (arith, str_eq_iff t "*"))
plain_token t rest (inr (inr (tail, last))) plain = absurd (ground (arith, str_eq_iff t ">"))

pub instantiate-IsLiteral :
    (t : String) (rest : List String) → IsToken t rest → IsLiteral (instantiate t)
unfolding instantiate
instantiate-IsLiteral t rest h = elim (Bool-cases (str_eq t "*" || str_eq t ">")) [
  | inl wild ↦ rw wild (refl, refl, refl)
  | inr plain ↦ rw plain (plain_token t rest h plain)
]

-- A literal token holds no wildcard character, so it is neither wildcard.
pub literal-ne-star : (t : String) → IsLiteral t → t ≢ "*"
literal-ne-star t h e = let c : has_char b'*' t ≡ true = rw e in cc (c, h.1)

pub literal-ne-tail : (t : String) → IsLiteral t → t ≢ ">"
literal-ne-tail t h e = let c : has_char b'>' t ≡ true = rw e in cc (c, h.2)

pub instantiate_of_IsLiteral : (t : String) → IsLiteral t → instantiate t ≡ t
unfolding instantiate
instantiate_of_IsLiteral t h =
    ground (arith, literal-ne-star t h, literal-ne-tail t h, str_eq_iff t "*", str_eq_iff t ">")

pub Accepts-head :
    (t : String) (rest s : List String)
    → IsToken t rest
    → t ≢ ">"
    → Accepts rest s
    → Accepts (t ∷ rest) (instantiate t ∷ s)
Accepts-head t rest s (inl lit) ne a = rw (instantiate_of_IsLiteral t lit) (literal a)
Accepts-head t rest s (inr (inl star)) ne a = any_one star a
Accepts-head t rest s (inr (inr (tail, last))) ne a = absurd (ne tail)

-- Every pattern accepts some subject with no wildcard.
pub sample : List String → List String
sample [] = []
sample (t ∷ rest) = instantiate t ∷ sample rest

pub sample-IsLiteral : (p : List String) → IsPattern p → All IsLiteral (sample p)
unfolding sample
sample-IsLiteral [] h = tt
sample-IsLiteral (t ∷ rest) (h, hs) = (instantiate-IsLiteral t rest h, sample-IsLiteral rest hs)

pub Accepts-sample : (p : List String) → IsPattern p → Accepts p (sample p)
unfolding sample
Accepts-sample [] h = done
Accepts-sample (t ∷ rest) (inl lit, hs) =
    Accepts-head t rest (sample rest) (inl lit) (literal-ne-tail t lit) (Accepts-sample rest hs)
Accepts-sample (t ∷ rest) (inr (inl star), hs) = any_one star (Accepts-sample rest hs)
Accepts-sample (t ∷ rest) (inr (inr (tail, last)), hs) =
    subst (λ r. Accepts (t ∷ r) (instantiate t ∷ sample rest)) (sym last) (any_tail tail)

abbrev pub Common : List String → List String → Type 0
Common first second = (s : List String) × All IsLiteral s × Accepts first s × Accepts second s

pub star-ne-tail : (t : String) → t ≡ "*" → t ≢ ">"
star-ne-tail t star e =
    let c : has_char b'*' t ≡ true = rw star in let d : has_char b'*' t ≡ false = rw e in cc (c, d)

pub Accepts-Common :
    (l r v : String) (first second : List String)
    → IsLiteral v
    → ((s : List String) → Accepts first s → Accepts (l ∷ first) (v ∷ s))
    → ((s : List String) → Accepts second s → Accepts (r ∷ second) (v ∷ s))
    → Common first second
    → Common (l ∷ first) (r ∷ second)
Accepts-Common l r v first second lit f g (s, all, a, b) = (v ∷ s, (lit, all), f s a, g s b)

pub Common-sym : (first second : List String) → Common first second → Common second first
Common-sym first second (s, all, a, b) = (s, all, b, a)

pub Common-tail :
    (l r : String) (first second : List String)
    → IsPattern (l ∷ first)
    → IsPattern (r ∷ second)
    → l ≡ ">"
    → Common (l ∷ first) (r ∷ second)
Common-tail l r first second (inl lit, _) h e = absurd (literal-ne-tail l lit e)
Common-tail l r first second (inr (inl star), _) h e = absurd (star-ne-tail l star e)
Common-tail l r first second (inr (inr (tail, last)), _) h e = (
  sample (r ∷ second),
  sample-IsLiteral (r ∷ second) h,
  unfold sample in
      subst (λ q. Accepts (l ∷ q) (instantiate r ∷ sample second)) (sym last) (any_tail tail),
  Accepts-sample (r ∷ second) h,
)

-- The heads of two overlapping patterns, neither of them `>`.
pub Common-head :
    (l r : String) (first second : List String)
    → IsPattern (l ∷ first)
    → IsPattern (r ∷ second)
    → l ≢ ">"
    → r ≢ ">"
    → (l ≡ "*") ⊎ ((r ≡ "*") ⊎ (l ≡ r))
    → Common first second
    → Common (l ∷ first) (r ∷ second)
Common-head l r first second (p, _) (q, _) nl nr (inl star) =
    Accepts-Common l r (instantiate r) first second (instantiate-IsLiteral r second q)
      (λ s a. any_one star a) (λ s a. Accepts-head r second s q nr a)
Common-head l r first second (p, _) (q, _) nl nr (inr (inl star)) =
    Accepts-Common l r (instantiate l) first second (instantiate-IsLiteral l first p)
      (λ s a. Accepts-head l first s p nl a) (λ s a. any_one star a)
Common-head l r first second (p, _) (q, _) nl nr (inr (inr same)) =
    Accepts-Common l r (instantiate l) first second (instantiate-IsLiteral l first p)
      (λ s a. Accepts-head l first s p nl a) (λ s a. rw same (Accepts-head r second s q nr a))

pub intersect_sound :
    (first second : List String)
    → IsPattern first
    → IsPattern second
    → intersect_from first second ≡ true
    → Common first second
unfolding intersect_from
intersect_sound [] [] p q h = ([], tt, done, done)
intersect_sound [] (r ∷ second) p q h = cc
intersect_sound (l ∷ first) [] p q h = cc
intersect_sound (l ∷ first) (r ∷ second) p q h = elim (Bool-cases (str_eq l ">")) [
  | inl lt ↦ Common-tail l r first second p q ((str_eq_iff l ">").0 lt)
  | inr ln ↦ elim (Bool-cases (str_eq r ">")) [
    | inl rt ↦ Common-sym _ _ (Common-tail r l second first q p ((str_eq_iff r ">").0 rt))
    | inr rn ↦
        Common-head l r first second p q (λ e. cc ((str_eq_iff l ">").1 e))
          (λ e. cc ((str_eq_iff r ">").1 e))
          (ground (arith, str_eq_iff l "*", str_eq_iff r "*", str_eq_iff l r))
          (intersect_sound first second p.1 q.1 (ground arith))
  ]
]
