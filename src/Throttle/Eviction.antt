-- ===== src/Throttle/Eviction.antt =====
-- crates/caelix-core/src/throttle.rs: room is made by dropping one bucket.
use caelix.Prelude.{
  ℕ, ◌≤◌, ◌≡◌, refl, sym, ap, subst, ◌∙◌, ◌≢◌, inl, inr, String, true, false, Option, none, some,
  [], ◌∷◌, ◌==◌, ==_iff, Bool-cases, length, arith, In,
}
use caelix.Container.{has}
use caelix.Throttle.{MemoryBucket, Buckets, Queue, matches, evict}
use caelix.Maps.{get, remove, get-remove_ne, get-remove_self}

-- Each bucket stands in the insertion order.
abbrev pub Queued : Queue → Buckets → Type 0
Queued q bs = (k : String) (b : MemoryBucket) → get bs k ≡ some b → In (b.generation, k) q

-- A bucket that is there after a removal is that of another key, and was there.
pub get-remove-some :
    (bs : Buckets) (v k : String) (b : MemoryBucket)
    → get (remove bs v) k ≡ some b
    → (v ≢ k) × (get bs k ≡ some b)
get-remove-some bs v k b h =
    let ne : v ≢ k =
      λ e. cc (h, subst (λ j. get (remove bs v) j ≡ none) e (get-remove_self bs v)) in
    (ne, sym (get-remove_ne bs v k ne) ∙ h)

evict_hit :
    (gen : ℕ) (old : String) (q : Queue) (bs : Buckets)
    → matches (get bs old) gen ≡ true
    → evict ((gen, old) ∷ q) bs ≡ (q, remove bs old)
unfolding evict
evict_hit gen old q bs h = rw (h, evict)

evict_miss :
    (gen : ℕ) (old : String) (q : Queue) (bs : Buckets)
    → matches (get bs old) gen ≡ false
    → evict ((gen, old) ∷ q) bs ≡ evict q bs
unfolding evict
evict_miss gen old q bs h = rw (h, evict)

matches-has : (o : Option MemoryBucket) (gen : ℕ) → matches o gen ≡ true → has o ≡ true
matches-has none gen h = cc h
matches-has (some b) gen h = refl

Queued-hit :
    (gen : ℕ) (old : String) (q : Queue) (bs : Buckets)
    → Queued ((gen, old) ∷ q) bs
    → Queued q (remove bs old)
Queued-hit gen old q bs h k b e =
    let (ne, before) = get-remove-some bs old k b e in
    elim (h k b before) [ inl top ↦ absurd (ne (sym (ap (λ p. p.1) top))) | inr later ↦ later ]

Queued-miss :
    (gen : ℕ) (old : String) (q : Queue) (bs : Buckets)
    → matches (get bs old) gen ≡ false
    → Queued ((gen, old) ∷ q) bs
    → Queued q bs
Queued-miss gen old q bs miss h k b e = elim (h k b e) [
  | inl top ↦
      let key : k ≡ old = ap (λ p. p.1) top in
      let same : b.generation ≡ gen = ap (λ p. p.0) top in
      let here : get bs old ≡ some b = subst (λ j. get bs j ≡ some b) key e in
      let hit : matches (get bs old) gen ≡ true =
        let g : (b.generation == gen) ≡ true = (==_iff b.generation gen).1 same in rw (here, g) in
      cc (miss, hit)
  | inr later ↦ later
]

-- What the loop does to a queue and the buckets that stand in it.
pub record Evicted (q : Queue) (bs : Buckets) (r : Queue × Buckets) : Type 0 where
  pub victim : String
  pub held : has (get bs victim) ≡ true
  pub gone : r.1 ≡ remove bs victim
  pub queued : Queued r.0 r.1
  pub shorter : length r.0 ≤ length q

-- Where there is a bucket, the loop drops one, and the rest of the queue lists the others.
pub evict-Evicted :
    (q : Queue) (bs : Buckets) (k : String) (b : MemoryBucket)
    → Queued q bs
    → get bs k ≡ some b
    → Evicted q bs (evict q bs)
evict-Evicted [] bs k b h e = elim (h k b e) [ ]
evict-Evicted ((gen, old) ∷ q) bs k b h e = elim (Bool-cases (matches (get bs old) gen)) [
  | inl hit ↦ subst (Evicted ((gen, old) ∷ q) bs) (sym (evict_hit gen old q bs hit)) (record {
    victim = old;
    held = matches-has (get bs old) gen hit;
    gone = refl;
    queued = Queued-hit gen old q bs h;
    shorter = omega arith;
  })
  | inr miss ↦
      let r = evict-Evicted q bs k b (Queued-miss gen old q bs miss h) e in
      subst (Evicted ((gen, old) ∷ q) bs) (sym (evict_miss gen old q bs miss)) (record {
        victim = r.victim;
        held = r.held;
        gone = r.gone;
        queued = r.queued;
        shorter = omega (arith, r.shorter);
      })
]
