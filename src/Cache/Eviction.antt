-- ===== src/Cache/Eviction.antt =====
-- crates/caelix-core/src/cache.rs: `evict_to_capacity` ends within the capacity, and spares what was
-- written last.
use caelix.Prelude.{
  ℕ, suc, zero, ◌+◌, ◌≤◌, ◌<◌, ◌≡◌, refl, sym, ap, subst, ◌∙◌, ◌≢◌, ◌⊎◌, inl, inr, String, true,
  false, Option, none, some, [], ◌∷◌, ltb, leb, ◌==◌, Bool-cases, length, str_eq, str_eq_iff, arith,
  In, All,
}
use caelix.Container.{has}
use caelix.Maps.{
  get as find, remove, get-remove_ne, get-remove_self, length-remove_lt, str_eq_of_ne,
}
use caelix.Cache.{CacheEntry, Entries, older, oldest, evict_loop, evict_to_capacity}

module _ {V : Type 0} where
  older-cases :
      (p : String × CacheEntry V) (o : Option (String × CacheEntry V))
      → (older p o ≡ p) ⊎ (o ≡ some (older p o))
  older-cases p none = inl refl
  older-cases p (some q) = elim (Bool-cases (leb p.1.inserted_at q.1.inserted_at)) [
    | inl e ↦ inl (rw e)
    | inr e ↦ inr (rw e)
  ]

  oldest-In : (es : Entries V) (p : String × CacheEntry V) → oldest es ≡ some p → In p es
  oldest-In [] p h = cc h
  oldest-In (q ∷ es) p h =
      let same : older q (oldest es) ≡ p = cc h in
      elim (older-cases q (oldest es)) [
        | inl e ↦ inl (sym same ∙ e)
        | inr e ↦ inr (oldest-In es p (e ∙ ap some same))
      ]

  has-In : (es : Entries V) (p : String × CacheEntry V) → In p es → has (find es p.0) ≡ true
  has-In [] p i = elim i [ ]
  has-In ((k, e) ∷ es) p i = elim (Bool-cases (str_eq k p.0)) [
    | inl same ↦ rw same
    | inr other ↦ elim i [
      | inl top ↦ cc (other, (str_eq_iff k p.0).1 (ap (λ q. q.0) (sym top)))
      | inr later ↦ rw other (has-In es p later)
    ]
  ]

  evict_go :
      (fuel n : ℕ) (p : String × CacheEntry V) (es : Entries V)
      → ltb n (suc (length es)) ≡ true
      → evict_loop (suc fuel) n (p ∷ es)
        ≡ evict_loop fuel n (remove (p ∷ es) (older p (oldest es)).0)
  unfolding evict_loop
  evict_go fuel n p es h = rw (h, evict_loop)

  evict_stop :
      (fuel n : ℕ) (es : Entries V) → ltb n (length es) ≡ false → evict_loop (suc fuel) n es ≡ es
  unfolding evict_loop
  evict_stop fuel n es h = rw (h, evict_loop)

  length-evict_loop :
      (fuel n : ℕ) (es : Entries V) → length es ≤ n + fuel → length (evict_loop fuel n es) ≤ n
  unfolding evict_loop
  length-evict_loop zero n es h = omega arith
  length-evict_loop (suc fuel) n [] h =
      let stop : ltb n (length {A = String × CacheEntry V} []) ≡ false = ground arith in
      subst (λ m. length m ≤ n) (sym (evict_stop fuel n [] stop)) (omega arith)
  length-evict_loop (suc fuel) n (p ∷ es) h = elim (Bool-cases (ltb n (suc (length es)))) [
    | inl go ↦
        let q = older p (oldest es) in
        let held = has-In (p ∷ es) q (oldest-In (p ∷ es) q refl) in
        let fewer = length-remove_lt (p ∷ es) q.0 held in
        subst (λ m. length m ≤ n) (sym (evict_go fuel n p es go))
          (length-evict_loop fuel n (remove (p ∷ es) q.0) (omega arith))
    | inr stop ↦ subst (λ m. length m ≤ n) (sym (evict_stop fuel n (p ∷ es) stop)) (ground arith)
  ]

  -- The fuel of the loop is enough: it ends when there are few enough entries.
  pub length-evict_to_capacity : (n : ℕ) (es : Entries V) → length (evict_to_capacity n es) ≤ n
  length-evict_to_capacity n es = elim (Bool-cases (n == 0)) [
    | inl e ↦ rw e (omega arith)
    | inr e ↦ rw e (length-evict_loop (length es) n es (omega arith))
  ]

  pub All-remove :
      (P : String × CacheEntry V → Type 0) (es : Entries V) (k : String)
      → All P es
      → All P (remove es k)
  All-remove P [] k h = tt
  All-remove P ((j, e) ∷ es) k (p, h) = elim (Bool-cases (str_eq j k)) [
    | inl same ↦ rw same (All-remove P es k h)
    | inr other ↦ rw other (p, All-remove P es k h)
  ]

  pub find-remove-none :
      (es : Entries V) (k j : String) → find es j ≡ none → find (remove es k) j ≡ none
  find-remove-none es k j h = elim (Bool-cases (str_eq k j)) [
    | inl e ↦ subst (λ x. find (remove es k) x ≡ none) ((str_eq_iff k j).0 e) (get-remove_self es k)
    | inr e ↦ get-remove_ne es k j (λ q. cc (e, (str_eq_iff k j).1 q)) ∙ h
  ]

  -- The entries were written before an instant.
  abbrev pub Before : ℕ → Entries V → Type 0
  Before now es = All (λ p. p.1.inserted_at < now) es

  All-at :
      (now : ℕ) (es : Entries V) (p : String × CacheEntry V)
      → Before now es
      → In p es
      → p.1.inserted_at < now
  All-at now [] p h i = elim i [ ]
  All-at now (q ∷ es) p (b, h) (inl e) = subst (λ x. x.1.inserted_at < now) (sym e) b
  All-at now (q ∷ es) p (b, h) (inr i) = All-at now es p h i

  -- The oldest of several is not the one that was written last.
  older-newest :
      (key : String) (e : CacheEntry V) (p : String × CacheEntry V) (es : Entries V)
      → Before e.inserted_at (p ∷ es)
      → older (key, e) (oldest (p ∷ es)) ≡ older p (oldest es)
  older-newest key e p es b =
      let q = older p (oldest es) in
      let lt = All-at e.inserted_at (p ∷ es) q b (oldest-In (p ∷ es) q refl) in
      let late : leb e.inserted_at q.1.inserted_at ≡ false = ground arith in rw late

  -- An entry that was written last stays at the head.
  evict_loop-head :
      (fuel n : ℕ) (key : String) (e : CacheEntry V) (es : Entries V)
      → 0 < n
      → Before e.inserted_at es
      → find es key ≡ none
      → (rest : Entries V) × (evict_loop fuel n ((key, e) ∷ es) ≡ (key, e) ∷ rest)
  unfolding evict_loop
  evict_loop-head zero n key e es pos b absent = (es, refl)
  evict_loop-head (suc fuel) n key e [] pos b absent =
      let stop : ltb n 1 ≡ false = ground arith in ([], evict_stop fuel n ((key, e) ∷ []) stop)
  evict_loop-head (suc fuel) n key e (p ∷ es) pos b absent =
      elim (Bool-cases (ltb n (suc (length (p ∷ es))))) [
        | inl go ↦
            let q = older p (oldest es) in
            let held = has-In (p ∷ es) q (oldest-In (p ∷ es) q refl) in
            let ne : key ≢ q.0 =
              λ k. cc (held, ap has (subst (λ x. find (p ∷ es) x ≡ none) k absent)) in
            let other : str_eq key q.0 ≡ false = str_eq_of_ne key q.0 ne in
            let (rest, r) =
              evict_loop-head fuel n key e (remove (p ∷ es) q.0) pos (All-remove _ (p ∷ es) q.0 b)
                (find-remove-none (p ∷ es) q.0 key absent) in
            let step : remove ((key, e) ∷ p ∷ es) q.0 ≡ (key, e) ∷ remove (p ∷ es) q.0 = rw other in
            (
              rest,
              evict_go fuel n (key, e) (p ∷ es) go
                  ∙ ap (λ o. evict_loop fuel n (remove ((key, e) ∷ p ∷ es) o.0))
                      (older-newest key e p es b)
                  ∙ ap (evict_loop fuel n) step
                  ∙ r,
            )
        | inr stop ↦ (p ∷ es, evict_stop fuel n ((key, e) ∷ p ∷ es) stop)
      ]

  pub evict_to_capacity-head :
      (n : ℕ) (key : String) (e : CacheEntry V) (es : Entries V)
      → 0 < n
      → Before e.inserted_at es
      → find es key ≡ none
      → (rest : Entries V) × (evict_to_capacity n ((key, e) ∷ es) ≡ (key, e) ∷ rest)
  evict_to_capacity-head n key e es pos b absent =
      let positive : (n == 0) ≡ false = ground arith in
      let (rest, r) = evict_loop-head (suc (length es)) n key e es pos b absent in
      (rest, rw positive r)

  -- Within the capacity nothing is dropped.
  pub evict_to_capacity_same :
      (n : ℕ) (p : String × CacheEntry V) (es : Entries V)
      → suc (length es) ≤ n
      → evict_to_capacity n (p ∷ es) ≡ p ∷ es
  evict_to_capacity_same n p es h =
      let positive : (n == 0) ≡ false = ground arith in
      let stop : ltb n (suc (length es)) ≡ false = ground arith in
      rw positive (evict_stop (length es) n (p ∷ es) stop)
