-- ===== src/Maps.antt =====
-- Rust's `HashMap` with text keys, which the program only looks up in: an association list.
use caelix.Prelude.{
  List, Option, if◌then◌else◌, suc, ◌≤◌, ◌<◌, ◌≡◌, refl, sym, ap, ◌∙◌, ◌≢◌, inl, inr, String, true,
  false, none, some, [], ◌∷◌, Bool-cases, length, str_eq, str_eq_iff, arith, In,
}
use caelix.Container.{has}

-- What a map holds under a key.
abbrev pub get : {V : Type 0} → List (String × V) → String → Option V
get [] key = none
get ((k, v) ∷ m) key = if str_eq k key then some v else get m key

abbrev pub remove : {V : Type 0} → List (String × V) → String → List (String × V)
remove [] key = []
remove ((k, v) ∷ m) key = let rest = remove m key in if str_eq k key then rest else (k, v) ∷ rest

-- A write through `get_mut`, to the entry that `get` finds.
abbrev pub write : {V : Type 0} → List (String × V) → String → V → List (String × V)
write [] key v = []
write ((k, w) ∷ m) key v =
    let rest = write m key v in if str_eq k key then (k, v) ∷ m else (k, w) ∷ rest

pub str_eq_of_ne : (a b : String) → a ≢ b → str_eq a b ≡ false
str_eq_of_ne a b h = elim (Bool-cases (str_eq a b)) [
  | inl e ↦ absurd (h ((str_eq_iff a b).0 e))
  | inr e ↦ e
]

-- A bucket of another key stays.
pub get-remove_ne :
    {V : Type 0} (bs : List (String × V)) (k j : String) → k ≢ j → get (remove bs k) j ≡ get bs j
get-remove_ne [] k j ne = refl
get-remove_ne ((i, b) ∷ bs) k j ne = elim (Bool-cases (str_eq i k)) [
  | inl e ↦
      let other : str_eq i j ≡ false =
        str_eq_of_ne i j (λ p. ne (sym ((str_eq_iff i k).0 e) ∙ p)) in
      rw (e, other) (get-remove_ne bs k j ne)
  | inr e ↦ elim (Bool-cases (str_eq i j)) [
    | inl f ↦ rw (e, f)
    | inr f ↦ rw (e, f) (get-remove_ne bs k j ne)
  ]
]

pub get-remove_self :
    {V : Type 0} (bs : List (String × V)) (k : String) → get (remove bs k) k ≡ none
get-remove_self [] k = refl
get-remove_self ((i, b) ∷ bs) k = elim (Bool-cases (str_eq i k)) [
  | inl e ↦ rw e (get-remove_self bs k)
  | inr e ↦ rw (e, e) (get-remove_self bs k)
]

pub length-remove_le :
    {V : Type 0} (bs : List (String × V)) (k : String) → length (remove bs k) ≤ length bs
length-remove_le [] k = omega arith
length-remove_le ((i, b) ∷ bs) k = elim (Bool-cases (str_eq i k)) [
  | inl e ↦ rw e (omega (arith, length-remove_le bs k))
  | inr e ↦ rw e (omega (arith, length-remove_le bs k))
]

pub length-remove_lt :
    {V : Type 0} (bs : List (String × V)) (k : String)
    → has (get bs k) ≡ true
    → length (remove bs k) < length bs
length-remove_lt [] k h = cc h
length-remove_lt ((i, b) ∷ bs) k h = elim (Bool-cases (str_eq i k)) [
  | inl e ↦ rw e (omega (arith, length-remove_le bs k))
  | inr e ↦ rw e (omega (arith, length-remove_lt bs k (rw e at h)))
]

pub get-write_ne :
    {V : Type 0} (bs : List (String × V)) (k j : String) (v : V)
    → k ≢ j
    → get (write bs k v) j ≡ get bs j
get-write_ne [] k j v ne = refl
get-write_ne ((i, b) ∷ bs) k j v ne = elim (Bool-cases (str_eq i k)) [
  | inl e ↦
      let other' : str_eq i j ≡ false =
        str_eq_of_ne i j (λ p. ne (sym ((str_eq_iff i k).0 e) ∙ p)) in
      rw (e, other')
  | inr e ↦ elim (Bool-cases (str_eq i j)) [
    | inl f ↦ rw (e, f)
    | inr f ↦ rw (e, f) (get-write_ne bs k j v ne)
  ]
]

pub get-write_self :
    {V : Type 0} (bs : List (String × V)) (k : String) (v : V)
    → has (get bs k) ≡ true
    → get (write bs k v) k ≡ some v
get-write_self [] k v h = cc h
get-write_self ((i, b) ∷ bs) k v h = elim (Bool-cases (str_eq i k)) [
  | inl e ↦ rw (e, e)
  | inr e ↦ rw (e, e) (get-write_self bs k v (rw e at h))
]

pub length-write :
    {V : Type 0} (bs : List (String × V)) (k : String) (v : V) → length (write bs k v) ≡ length bs
length-write [] k v = refl
length-write ((i, b) ∷ bs) k v = elim (Bool-cases (str_eq i k)) [
  | inl e ↦ rw e
  | inr e ↦ rw e (ap suc (length-write bs k v))
]

-- What is found is listed.
pub In-get :
    {V : Type 0} (bs : List (String × V)) (k : String) (b : V) → get bs k ≡ some b → In (k, b) bs
In-get [] k b e = cc e
In-get ((i, c) ∷ bs) k b e = elim (Bool-cases (str_eq i k)) [
  | inl f ↦
      let same : some c ≡ some b = rw f at e in
      let key : i ≡ k = (str_eq_iff i k).0 f in inl (cc (same, key))
  | inr f ↦ inr (In-get bs k b (rw f at e))
]
