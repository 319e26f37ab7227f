-- ===== src/Throttle/Room.antt =====
-- crates/caelix-core/src/throttle.rs: the invariant of a store, where buckets expire, are dropped and
-- are added.
use caelix.Prelude.{
  ℕ, ◌+◌, ◌^◌, ◌%◌, ◌≤◌, ◌<◌, ◌≡◌, refl, sym, ap, subst, ◌∙◌, ◌⊎◌, inl, inr, String, true, Option,
  none, some, [], ◌∷◌, ltb, leb, Bool-cases, length, str_eq, str_eq_iff, arith, In, In-append_left,
  In-append_right, leb→le, ltb→lt,
}
use caelix.Container.{has}
use caelix.Throttle.{
  MemoryBucket, Buckets, MemoryThrottleState, evict, push, expiration_of, drop_expired, make_room,
  open_window,
}
use caelix.Maps.{get, remove, length-remove_lt}
use caelix.Throttle.Expiry.{
  live, Sorted, Covers, get-expire, Sorted-expire, In-expire, length-expire,
}
use caelix.Throttle.Eviction.{Queued, get-remove-some, Evicted, evict-Evicted}
use caelix.Throttle.Indexes.{In-push_self, In-push, Sorted-push}

-- The heap is sorted, and each bucket stands in the heap and in the insertion order.
pub record Indexed (st : MemoryThrottleState) : Type 0 where
  pub sorted : Sorted st.expirations
  pub covered : Covers st.expirations st.buckets
  pub queued : Queued st.insertion_order st.buckets

-- What a store holds is bounded.
pub record Bounded (buckets indexes : ℕ) (st : MemoryThrottleState) : Type 0 where
  pub few : length st.buckets ≤ buckets
  pub short_heap : length st.expirations ≤ indexes
  pub short_queue : length st.insertion_order ≤ indexes

pub live-some :
    (now : ℕ) (o : Option MemoryBucket) (b : MemoryBucket)
    → live now o ≡ some b
    → (o ≡ some b) × (now < b.expires_at)
live-some now none b h = cc h
live-some now (some c) b h = elim (Bool-cases (ltb now c.expires_at)) [
  | inl early ↦
      let same : some c ≡ some b = rw early at h in
      let cb : c ≡ b = cc same in
      (same, subst (λ x. now < x.expires_at) cb (ltb→lt now c.expires_at early))
  | inr late ↦ cc (rw late at h)
]

pub get-drop_expired :
    (now : ℕ) (st : MemoryThrottleState) (k : String)
    → Indexed st
    → get (drop_expired now st).buckets k ≡ live now (get st.buckets k)
get-drop_expired now st k i =
    get-expire now st.expirations st.buckets k i.sorted (λ j b e over. i.covered j b e)

pub drop_expired-Indexed :
    (now : ℕ) (st : MemoryThrottleState) → Indexed st → Indexed (drop_expired now st)
drop_expired-Indexed now st i = record {
  sorted = Sorted-expire now st.expirations st.buckets i.sorted;
  covered = λ k b e.
      let (before, early) =
        live-some now (get st.buckets k) b (sym (get-drop_expired now st k i) ∙ e) in
      In-expire now st.expirations st.buckets (expiration_of k b) (i.covered k b before) early;
  queued = λ k b e.
      let (before, early) =
        live-some now (get st.buckets k) b (sym (get-drop_expired now st k i) ∙ e) in
      i.queued k b before;
}

pub drop_expired-Bounded :
    (now n m : ℕ) (st : MemoryThrottleState) → Bounded n m st → Bounded n m (drop_expired now st)
drop_expired-Bounded now n m st b =
    let (h, l) = length-expire now st.expirations st.buckets in
    record {
      few = omega (arith, l, b.few);
      short_heap = omega (arith, h, b.short_heap);
      short_queue = b.short_queue;
    }

-- What making room leaves: fewer buckets than the capacity, and at most one gone.
pub record Roomy (capacity : ℕ) (st st' : MemoryThrottleState) : Type 0 where
  pub indexed : Indexed st'
  pub room : length st'.buckets < capacity
  pub heap_kept : st'.expirations ≡ st.expirations
  pub queue_kept : length st'.insertion_order ≤ length st.insertion_order
  pub kept :
      (st' ≡ st × (length st.buckets < capacity))
      ⊎ ((v : String) × (st'.buckets ≡ remove st.buckets v)
          × (has (get st.buckets v) ≡ true)
          × (capacity ≤ length st.buckets))

pub held_bucket :
    (bs : Buckets) → 0 < length bs → (k : String) × (b : MemoryBucket) × (get bs k ≡ some b)
held_bucket [] h = absurd (omega arith)
held_bucket ((k, b) ∷ bs) h =
    let self : str_eq k k ≡ true = (str_eq_iff k k).1 refl in (k, b, rw self)

pub Evicted-Roomy :
    (capacity : ℕ) (st : MemoryThrottleState)
    → length st.buckets ≤ capacity
    → capacity ≤ length st.buckets
    → Indexed st
    → Evicted st.insertion_order st.buckets (evict st.insertion_order st.buckets)
    → Roomy capacity st (record st {
      insertion_order = (evict st.insertion_order st.buckets).0;
      buckets = (evict st.insertion_order st.buckets).1;
    })
Evicted-Roomy capacity st few full i e =
    let fewer = length-remove_lt st.buckets e.victim e.held in
    record {
      indexed = record {
        sorted = i.sorted;
        covered = λ k b f.
            let (ne, before) =
              get-remove-some st.buckets e.victim k b (ap (λ m. get m k) (sym e.gone) ∙ f) in
            i.covered k b before;
        queued = e.queued;
      };
      room = subst (λ m. length m < capacity) (sym e.gone) (omega arith);
      heap_kept = refl;
      queue_kept = e.shorter;
      kept = inr (e.victim, e.gone, e.held, full);
    }

pub make_room-Roomy :
    (capacity : ℕ) (st : MemoryThrottleState)
    → 0 < capacity
    → length st.buckets ≤ capacity
    → Indexed st
    → Roomy capacity st (make_room capacity st)
make_room-Roomy capacity st pos few i = elim (Bool-cases (leb capacity (length st.buckets))) [
  | inl full ↦
      let le = leb→le capacity (length st.buckets) full in
      let (k, b, e) = held_bucket st.buckets (omega arith) in
      rw full (
        Evicted-Roomy capacity st few le i
          (evict-Evicted st.insertion_order st.buckets k b i.queued e))
  | inr space ↦
      let lt : length st.buckets < capacity = ground arith in
      rw space (record {
        indexed = i;
        room = lt;
        heap_kept = refl;
        queue_kept = omega arith;
        kept = inl (refl, lt);
      })
]

pub open_window-Indexed :
    (key : String) (t : ℕ) (st : MemoryThrottleState) → Indexed st → Indexed (open_window key t st)
open_window-Indexed key t st i =
    let gen = (st.next_generation + 1) % 2 ^ 64 in
    let fresh : MemoryBucket = record { count = 0; expires_at = t; generation = gen } in
    record {
      sorted = Sorted-push (expiration_of key fresh) st.expirations i.sorted;
      covered = λ k b e. elim (Bool-cases (str_eq key k)) [
        | inl here ↦
            let q : key ≡ k = (str_eq_iff key k).0 here in
            let same : some fresh ≡ some b = rw here at e in
            let fb : fresh ≡ b = cc same in
            subst (λ x. In x (push (expiration_of key fresh) st.expirations))
              (ap (λ j. expiration_of j fresh) q ∙ ap (expiration_of k) fb)
              (In-push_self (expiration_of key fresh) st.expirations)
        | inr there ↦
            In-push (expiration_of key fresh) (expiration_of k b) st.expirations
              (i.covered k b (rw there at e))
      ];
      queued = λ k b e. elim (Bool-cases (str_eq key k)) [
        | inl here ↦
            let q : key ≡ k = (str_eq_iff key k).0 here in
            let same : some fresh ≡ some b = rw here at e in
            let fb : fresh ≡ b = cc same in
            In-append_right (b.generation, k) st.insertion_order ((gen, key) ∷ [])
              (inl (ap (λ j. (b.generation, j)) (sym q) ∙ ap (λ x. (x.generation, key)) (sym fb)))
        | inr there ↦
            In-append_left (b.generation, k) st.insertion_order ((gen, key) ∷ [])
              (i.queued k b (rw there at e))
      ];
    }
