-- ===== src/Throttle/Invariant.antt =====
-- crates/caelix-core/src/throttle.rs: the invariant of a store, where the indexes are rebuilt and a
-- count is written.
use caelix.Prelude.{
  ℕ, ◌≤◌, ◌≡◌, refl, sym, ap, subst, ◌∙◌, inl, inr, String, true, some, List, ltb, Bool-cases,
  if◌then◌else◌, length, str_eq, str_eq_iff, arith, In,
}
use caelix.Container.{has}
use caelix.Throttle.{
  MemoryBucket, Expiration, Buckets, Queue, MemoryThrottleState, expiration_of, heap_of, queue_of,
  index_limit, compact,
}
use caelix.Maps.{get, write, get-write_ne, get-write_self}
use caelix.Throttle.Expiry.{Sorted, Covers}
use caelix.Throttle.Eviction.{Queued}
use caelix.Throttle.Indexes.{
  heap_of-Covers, heap_of-Sorted, length-heap_of, queue_of-Queued, length-queue_of,
}
use caelix.Throttle.Room.{Indexed, Bounded}

compact_heap :
    (limit : ℕ) (bs : Buckets) (es : List Expiration)
    → Sorted es
    → Covers es bs
    → Sorted (if ltb limit (length es) then heap_of bs else es)
      × Covers (if ltb limit (length es) then heap_of bs else es) bs
compact_heap limit bs es s c = elim (Bool-cases (ltb limit (length es))) [
  | inl long ↦
      subst (λ t. Sorted (if t then heap_of bs else es) × Covers (if t then heap_of bs else es) bs)
        (sym long) (heap_of-Sorted bs, heap_of-Covers bs)
  | inr short ↦
      subst (λ t. Sorted (if t then heap_of bs else es) × Covers (if t then heap_of bs else es) bs)
        (sym short) (s, c)
]

compact_queue :
    (limit : ℕ) (bs : Buckets) (q : Queue)
    → Queued q bs
    → Queued (if ltb limit (length q) then queue_of bs else q) bs
compact_queue limit bs q h = elim (Bool-cases (ltb limit (length q))) [
  | inl long ↦ subst (λ t. Queued (if t then queue_of bs else q) bs) (sym long) (queue_of-Queued bs)
  | inr short ↦ subst (λ t. Queued (if t then queue_of bs else q) bs) (sym short) h
]

pub compact-Indexed :
    (capacity : ℕ) (st : MemoryThrottleState) → Indexed st → Indexed (compact capacity st)
compact-Indexed capacity st i =
    let (s, c) = compact_heap (index_limit capacity) st.buckets st.expirations i.sorted i.covered in
    record {
      sorted = s;
      covered = c;
      queued = compact_queue (index_limit capacity) st.buckets st.insertion_order i.queued;
    }

length_of_if {ℓ} :
    {A : Type ℓ} (limit : ℕ) (xs ys : List A)
    → length ys ≤ limit
    → length (if ltb limit (length xs) then ys else xs) ≤ limit
length_of_if limit xs ys h = elim (Bool-cases (ltb limit (length xs))) [
  | inl long ↦ subst (λ t. length (if t then ys else xs) ≤ limit) (sym long) h
  | inr short ↦ subst (λ t. length (if t then ys else xs) ≤ limit) (sym short) (ground arith)
]

-- The indexes are rebuilt before they pass their limit.
pub compact-Bounded :
    (capacity : ℕ) (st : MemoryThrottleState)
    → length st.buckets ≤ capacity
    → capacity ≤ index_limit capacity
    → Bounded capacity (index_limit capacity) (compact capacity st)
compact-Bounded capacity st few fits = record {
  few = few;
  short_heap =
      length_of_if (index_limit capacity) st.expirations (heap_of st.buckets)
        (subst (λ n. n ≤ index_limit capacity) (sym (length-heap_of st.buckets)) (omega arith));
  short_queue =
      length_of_if (index_limit capacity) st.insertion_order (queue_of st.buckets)
        (subst (λ n. n ≤ index_limit capacity) (sym (length-queue_of st.buckets)) (omega arith));
}

-- A write to the count of a bucket.
pub write-Indexed :
    (st : MemoryThrottleState) (key : String) (b : MemoryBucket) (n : ℕ)
    → get st.buckets key ≡ some b
    → Indexed st
    → Indexed (record st { buckets = write st.buckets key (record b { count = n }) })
write-Indexed st key b n found i =
    let held : has (get st.buckets key) ≡ true = rw found in
    let v : MemoryBucket = record b { count = n } in
    let before : (k : String) (c : MemoryBucket)
        → get (write st.buckets key v) k ≡ some c
        → (d : MemoryBucket) × (get st.buckets k ≡ some d)
          × (expiration_of k d ≡ expiration_of k c) =
      λ k c e. elim (Bool-cases (str_eq key k)) [
        | inl here ↦
            let q : key ≡ k = (str_eq_iff key k).0 here in
            let same : some v ≡ some c =
              sym (
                subst (λ j. get (write st.buckets key v) j ≡ some v) q
                  (get-write_self st.buckets key v held))
              ∙ e in
            let vc : v ≡ c = cc same in
            (b, subst (λ j. get st.buckets j ≡ some b) q found, ap (expiration_of k) vc)
        | inr there ↦ (
          c,
          sym (get-write_ne st.buckets key k v (λ p. cc (there, (str_eq_iff key k).1 p))) ∙ e,
          refl,
        )
      ] in
    record {
      sorted = i.sorted;
      covered = λ k c e.
          let (d, f, same) = before k c e in
          subst (λ x. In x st.expirations) same (i.covered k d f);
      queued = λ k c e.
          let (d, f, same) = before k c e in
          subst (λ x. In (x.generation, k) st.insertion_order) same (i.queued k d f);
    }
