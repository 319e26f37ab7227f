-- ===== src/Throttle/Expiry.antt =====
-- crates/caelix-core/src/throttle.rs: an increment first drops exactly the buckets whose time is over.
use caelix.Prelude.{
  ℕ, ◌≤◌, ◌<◌, ◌≡◌, sym, ap, subst, ◌∙◌, ◌⊎◌, inl, inr, String, true, false, ◌&&◌, Option, none,
  some, List, [], ◌∷◌, ltb, leb, ◌==◌, ==_iff, Bool-cases, Option-cases, if◌then◌else◌, length,
  str_eq, str_eq_iff, arith, In, All, and-eq-true, ltb→lt, leb→le,
}
use caelix.Throttle.{MemoryBucket, Expiration, Buckets, is_due, drop_due, expire, expiration_of}
use caelix.Maps.{get, remove, get-remove_ne, get-remove_self, length-remove_le}

-- A bucket counts until its time is over.
abbrev pub live : ℕ → Option MemoryBucket → Option MemoryBucket
live now none = none
live now (some b) = if ltb now b.expires_at then some b else none

-- The order of a heap: what pops first expires first.
abbrev pub Sorted : List Expiration → Type 0
Sorted [] = Unit
Sorted (e ∷ es) = All (λ f. e.expires_at ≤ f.expires_at) es × Sorted es

-- Each bucket stands in the heap.
abbrev pub Covers : List Expiration → Buckets → Type 0
Covers es bs = (k : String) (b : MemoryBucket) → get bs k ≡ some b → In (expiration_of k b) es

-- Each bucket whose time is over stands in what is left of the heap.
abbrev Due : ℕ → List Expiration → Buckets → Type 0
Due now es bs =
    (k : String) (b : MemoryBucket)
    → get bs k ≡ some b
    → b.expires_at ≤ now
    → In (expiration_of k b) es

All-at :
    (P : Expiration → Type 0) (es : List Expiration) (e : Expiration) → All P es → In e es → P e
All-at P [] e h i = elim i [ ]
All-at P (f ∷ es) e (p, h) (inl q) = subst P (sym q) p
All-at P (f ∷ es) e (p, h) (inr i) = All-at P es e h i

-- Dropping a bucket that is due: it is over, and no other is touched.
drop_due-cases :
    (now : ℕ) (e : Expiration) (bs : Buckets)
    → (drop_due now e bs ≡ bs × (is_due (get bs e.key) e.generation now ≡ false))
      ⊎ ((b : MemoryBucket) × (get bs e.key ≡ some b)
          × (b.expires_at ≤ now)
          × (drop_due now e bs ≡ remove bs e.key))
drop_due-cases now e bs = elim (Option-cases (get bs e.key)) [
  | inl absent ↦ inl (rw absent, rw absent)
  | inr (b, found) ↦ elim (Bool-cases (b.generation == e.generation && leb b.expires_at now)) [
    | inl due ↦
        let (g, t) = and-eq-true (b.generation == e.generation) (leb b.expires_at now) due in
        inr (b, found, leb→le b.expires_at now t, rw (found, due))
    | inr kept ↦ inl (rw (found, kept), rw (found) kept)
  ]
]

live-over : (now : ℕ) (b : MemoryBucket) → b.expires_at ≤ now → live now (some b) ≡ none
live-over now b h = let late : ltb now b.expires_at ≡ false = ground arith in rw late

get-drop_due :
    (now : ℕ) (e : Expiration) (bs : Buckets) (k : String)
    → live now (get (drop_due now e bs) k) ≡ live now (get bs k)
get-drop_due now e bs k = elim (drop_due-cases now e bs) [
  | inl (same, kept) ↦ ap (λ m. live now (get m k)) same
  | inr (b, found, over, gone) ↦ elim (Bool-cases (str_eq e.key k)) [
    | inl q ↦
        let key : e.key ≡ k = (str_eq_iff e.key k).0 q in
        ap (λ m. live now (get m k)) gone
        ∙ ap (live now) (subst (λ j. get (remove bs e.key) j ≡ none) key (get-remove_self bs e.key))
        ∙ sym (live-over now b over)
        ∙ ap (live now) (sym (subst (λ j. get bs j ≡ some b) key found))
    | inr q ↦
        ap (λ m. live now (get m k)) gone
        ∙ ap (live now) (get-remove_ne bs e.key k (λ p. cc (q, (str_eq_iff e.key k).1 p)))
  ]
]

-- What is found afterwards was there.
get-drop_due-some :
    (now : ℕ) (e : Expiration) (bs : Buckets) (k : String) (b : MemoryBucket)
    → get (drop_due now e bs) k ≡ some b
    → get bs k ≡ some b
get-drop_due-some now e bs k b h = elim (drop_due-cases now e bs) [
  | inl (same, kept) ↦ ap (λ m. get m k) (sym same) ∙ h
  | inr (c, found, over, gone) ↦
      let h' : get (remove bs e.key) k ≡ some b = ap (λ m. get m k) (sym gone) ∙ h in
      elim (Bool-cases (str_eq e.key k)) [
        | inl q ↦
            let key : e.key ≡ k = (str_eq_iff e.key k).0 q in
            cc (h', subst (λ j. get (remove bs e.key) j ≡ none) key (get-remove_self bs e.key))
        | inr q ↦ sym (get-remove_ne bs e.key k (λ p. cc (q, (str_eq_iff e.key k).1 p))) ∙ h'
      ]
]

-- A bucket that stands at the top of the heap when its time is over is dropped.
Due-drop_due :
    (now : ℕ) (e : Expiration) (es : List Expiration) (bs : Buckets)
    → Due now (e ∷ es) bs
    → Due now es (drop_due now e bs)
Due-drop_due now e es bs due k b h over =
    let before = get-drop_due-some now e bs k b h in
    elim (due k b before over) [
      | inr later ↦ later
      | inl top ↦
          let key : k ≡ e.key = ap (λ x. x.key) top in
          let gen : b.generation ≡ e.generation = ap (λ x. x.generation) top in
          let here : get bs e.key ≡ some b = subst (λ j. get bs j ≡ some b) key before in
          let is : is_due (get bs e.key) e.generation now ≡ true =
            let g : (b.generation == e.generation) ≡ true =
              (==_iff b.generation e.generation).1 gen in
            let t : leb b.expires_at now ≡ true = ground arith in rw (here, g, t) in
          let gone : drop_due now e bs ≡ remove bs e.key = rw is in
          let h' : get (remove bs e.key) e.key ≡ some b =
            ap (λ m. get m e.key) (sym gone)
            ∙ subst (λ j. get (drop_due now e bs) j ≡ some b) key h in
          cc (h', get-remove_self bs e.key)
    ]

-- Nothing that is left is over.
none_due :
    (now : ℕ) (bs : Buckets) (k : String)
    → ((b : MemoryBucket) → get bs k ≡ some b → now < b.expires_at)
    → get bs k ≡ live now (get bs k)
none_due now bs k h = elim (Option-cases (get bs k)) [
  | inl absent ↦ rw absent
  | inr (b, found) ↦
      let lt = h b found in
      let early : ltb now b.expires_at ≡ true = ground arith in rw (found, early)
]

expire_stop :
    (now : ℕ) (e : Expiration) (es : List Expiration) (bs : Buckets)
    → ltb now e.expires_at ≡ true
    → expire now (e ∷ es) bs ≡ (e ∷ es, bs)
unfolding expire
expire_stop now e es bs h = rw (h, expire)

expire_go :
    (now : ℕ) (e : Expiration) (es : List Expiration) (bs : Buckets)
    → ltb now e.expires_at ≡ false
    → expire now (e ∷ es) bs ≡ expire now es (drop_due now e bs)
unfolding expire
expire_go now e es bs h = rw (h, expire)

-- The loop leaves exactly the buckets whose time is not over.
pub get-expire :
    (now : ℕ) (es : List Expiration) (bs : Buckets) (k : String)
    → Sorted es
    → Due now es bs
    → get (expire now es bs).1 k ≡ live now (get bs k)
unfolding expire
get-expire now [] bs k s due = none_due now bs k (λ b e. elim (Bool-cases (ltb now b.expires_at)) [
  | inl lt ↦ ltb→lt now b.expires_at lt
  | inr ge ↦ absurd (due k b e (ground arith))
])
get-expire now (e ∷ es) bs k (first, s) due = elim (Bool-cases (ltb now e.expires_at)) [
  | inl lt ↦
      let least = ltb→lt now e.expires_at lt in
      subst (λ r. get r.1 k ≡ live now (get bs k)) (sym (expire_stop now e es bs lt))
        (none_due now bs k (λ b f. elim (Bool-cases (ltb now b.expires_at)) [
          | inl lt' ↦ ltb→lt now b.expires_at lt'
          | inr ge ↦
              let over : b.expires_at ≤ now = ground arith in
              elim (due k b f over) [
                | inl top ↦
                    let same : b.expires_at ≡ e.expires_at = ap (λ x. x.expires_at) top in
                    absurd (omega arith)
                | inr later ↦
                    let bound =
                      All-at (λ f. e.expires_at ≤ f.expires_at) es (expiration_of k b) first
                        later in
                    absurd (omega arith)
              ]
        ]))
  | inr ge ↦
      subst (λ r. get r.1 k ≡ live now (get bs k)) (sym (expire_go now e es bs ge))
        (get-expire now es (drop_due now e bs) k s (Due-drop_due now e es bs due)
          ∙ get-drop_due now e bs k)
]

-- What is left of the heap is sorted, covers what is left, and is not longer.
pub Sorted-expire :
    (now : ℕ) (es : List Expiration) (bs : Buckets) → Sorted es → Sorted (expire now es bs).0
unfolding expire
Sorted-expire now [] bs s = tt
Sorted-expire now (e ∷ es) bs (first, s) = elim (Bool-cases (ltb now e.expires_at)) [
  | inl lt ↦ subst (λ r. Sorted r.0) (sym (expire_stop now e es bs lt)) (first, s)
  | inr ge ↦
      subst (λ r. Sorted r.0) (sym (expire_go now e es bs ge))
        (Sorted-expire now es (drop_due now e bs) s)
]

pub In-expire :
    (now : ℕ) (es : List Expiration) (bs : Buckets) (f : Expiration)
    → In f es
    → now < f.expires_at
    → In f (expire now es bs).0
unfolding expire
In-expire now [] bs f i h = i
In-expire now (e ∷ es) bs f i h = elim (Bool-cases (ltb now e.expires_at)) [
  | inl lt ↦ subst (λ r. In f r.0) (sym (expire_stop now e es bs lt)) i
  | inr ge ↦ elim i [
    | inl top ↦
        let same : f.expires_at ≡ e.expires_at = ap (λ x. x.expires_at) top in
        let late : e.expires_at ≤ now = ground arith in absurd (omega arith)
    | inr later ↦
        subst (λ r. In f r.0) (sym (expire_go now e es bs ge))
          (In-expire now es (drop_due now e bs) f later h)
  ]
]

pub length-expire :
    (now : ℕ) (es : List Expiration) (bs : Buckets)
    → (length (expire now es bs).0 ≤ length es) × (length (expire now es bs).1 ≤ length bs)
unfolding expire
length-expire now [] bs = (omega arith, omega arith)
length-expire now (e ∷ es) bs = elim (Bool-cases (ltb now e.expires_at)) [
  | inl lt ↦
      subst (λ r. (length r.0 ≤ length (e ∷ es)) × (length r.1 ≤ length bs))
        (sym (expire_stop now e es bs lt)) (omega arith, omega arith)
  | inr ge ↦
      let (a, b) = length-expire now es (drop_due now e bs) in
      let c : length (drop_due now e bs) ≤ length bs = elim (drop_due-cases now e bs) [
        | inl (same, kept) ↦ subst (λ m. length m ≤ length bs) (sym same) (omega arith)
        | inr (x, found, over, gone) ↦
            subst (λ m. length m ≤ length bs) (sym gone) (length-remove_le bs e.key)
      ] in
      subst (λ r. (length r.0 ≤ length (e ∷ es)) × (length r.1 ≤ length bs))
        (sym (expire_go now e es bs ge)) (omega arith, omega arith)
]
