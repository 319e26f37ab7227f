-- ===== src/Throttle.antt =====
-- crates/caelix-core/src/throttle.rs: `MemoryThrottleStore`.
-- An `Instant` and a `Duration` are numbers of nanoseconds; `clock_max` is the latest instant that the
-- clock represents, past which `checked_add` gives nothing. The mutex makes an increment one step,
-- which takes the time as an argument. The heap is a list in the order in which it pops, its key the
-- last part of an order that the generation decides; the map is an association list.
pub mod Expiry
pub mod Eviction
pub mod Indexes
pub mod Room
pub mod Invariant
pub mod Window
pub mod States
pub mod Service
pub mod Quota
use caelix.Prelude.{
  ℕ, suc, ◌+◌, ◌-◌, ◌*◌, ◌%◌, ◌^◌, min, max, String, Bool, true, false, not, ◌&&◌, ◌||◌, Option,
  none, some, List, [], ◌∷◌, ◌++◌, ltb, leb, ◌==◌, if◌then◌else◌, length, str_eq,
}
use caelix.Maps.{get, remove, write}
use caelix.Errors.{
  text, Outcome, done, fail, panicked, out_of_fuel, ◌>>=◌, ◌>>◌, fail_if, startup_error,
}
use caelix.Container.{has}

pub record MemoryBucket : Type 0 where
  pub count : ℕ
  pub expires_at : ℕ
  pub generation : ℕ

pub record Expiration : Type 0 where
  pub expires_at : ℕ
  pub generation : ℕ
  pub key : String

abbrev pub Buckets : Type 0
Buckets = List (String × MemoryBucket)

abbrev pub Queue : Type 0
Queue = List (ℕ × String)

pub record MemoryThrottleState : Type 0 where
  pub buckets : Buckets
  pub expirations : List Expiration
  pub insertion_order : Queue
  pub next_generation : ℕ

pub record ThrottleStoreRecord : Type 0 where
  pub count : ℕ
  pub retry_after : ℕ

abbrev pub empty : MemoryThrottleState
empty = record { buckets = []; expirations = []; insertion_order = []; next_generation = 0 }

abbrev pub with_capacity : ℕ → ℕ
with_capacity capacity = max capacity 1

abbrev pub matches : Option MemoryBucket → ℕ → Bool
matches none generation = false
matches (some b) generation = b.generation == generation

abbrev pub is_due : Option MemoryBucket → ℕ → ℕ → Bool
is_due none generation now = false
is_due (some b) generation now = b.generation == generation && leb b.expires_at now

abbrev pub drop_due : ℕ → Expiration → Buckets → Buckets
drop_due now e bs = if is_due (get bs e.key) e.generation now then remove bs e.key else bs

-- The loop that drops the buckets whose time is over.
pub expire : ℕ → List Expiration → Buckets → List Expiration × Buckets
expire now [] bs = ([], bs)
expire now (e ∷ es) bs =
    let rest = expire now es (drop_due now e bs) in
    if ltb now e.expires_at then (e ∷ es, bs) else rest

-- The loop that drops the oldest bucket.
pub evict : Queue → Buckets → Queue × Buckets
evict [] bs = ([], bs)
evict ((generation, oldest) ∷ queue) bs =
    let rest = evict queue bs in
    if matches (get bs oldest) generation then (queue, remove bs oldest) else rest

abbrev pub pops_before : Expiration → Expiration → Bool
pops_before a b =
    ltb a.expires_at b.expires_at || (a.expires_at == b.expires_at && leb a.generation b.generation)

-- `BinaryHeap::push`
abbrev pub push : Expiration → List Expiration → List Expiration
push e [] = e ∷ []
push e (f ∷ fs) = let rest = push e fs in if pops_before e f then e ∷ f ∷ fs else f ∷ rest

abbrev pub expiration_of : String → MemoryBucket → Expiration
expiration_of k b = record { expires_at = b.expires_at; generation = b.generation; key = k }

abbrev pub heap_of : Buckets → List Expiration
heap_of [] = []
heap_of ((k, b) ∷ bs) = push (expiration_of k b) (heap_of bs)

-- `sort_unstable_by_key` on the generation
abbrev pub insert_sorted : ℕ × String → Queue → Queue
insert_sorted p [] = p ∷ []
insert_sorted p (q ∷ qs) =
    let rest = insert_sorted p qs in if leb p.0 q.0 then p ∷ q ∷ qs else q ∷ rest

abbrev pub queue_of : Buckets → Queue
queue_of [] = []
queue_of ((k, b) ∷ bs) = insert_sorted (b.generation, k) (queue_of bs)

-- `saturating_mul(2)` of a `usize`
abbrev pub index_limit : ℕ → ℕ
index_limit capacity = min (capacity * 2) (2 ^ 64 - 1)

abbrev pub compact : ℕ → MemoryThrottleState → MemoryThrottleState
compact capacity st = record st {
  expirations =
      if ltb (index_limit capacity) (length st.expirations)
      then heap_of st.buckets
      else st.expirations;
  insertion_order =
      if ltb (index_limit capacity) (length st.insertion_order)
      then queue_of st.buckets
      else st.insertion_order;
}

-- The last step: the count of the bucket goes up, saturating.
abbrev pub count_bucket :
    ℕ
    → String
    → MemoryThrottleState
    → Option MemoryBucket
    → Outcome ThrottleStoreRecord × MemoryThrottleState
count_bucket now key st none = (panicked, st)
count_bucket now key st (some b) =
    let count = min (suc b.count) (2 ^ 64 - 1) in
    (
      done (record { count = count; retry_after = b.expires_at - now }),
      record st { buckets = write st.buckets key (record b { count = count }) },
    )

abbrev pub count_up :
    ℕ → String → MemoryThrottleState → Outcome ThrottleStoreRecord × MemoryThrottleState
count_up now key st = count_bucket now key st (get st.buckets key)

abbrev pub drop_expired : ℕ → MemoryThrottleState → MemoryThrottleState
drop_expired now st =
    let (es, bs) = expire now st.expirations st.buckets in
    record st { expirations = es; buckets = bs }

abbrev pub make_room : ℕ → MemoryThrottleState → MemoryThrottleState
make_room capacity st =
    if leb capacity (length st.buckets)
    then (let (q, bs) = evict st.insertion_order st.buckets in
        record st { insertion_order = q; buckets = bs })
    else st

-- The new bucket of a key.
abbrev pub open_window : String → ℕ → MemoryThrottleState → MemoryThrottleState
open_window key expires_at st =
    let generation = (st.next_generation + 1) % 2 ^ 64 in
    record {
      buckets =
          (key, record { count = 0; expires_at = expires_at; generation = generation })
          ∷ st.buckets;
      expirations =
          push (record { expires_at = expires_at; generation = generation; key = key })
            st.expirations;
      insertion_order = st.insertion_order ++ (generation, key) ∷ [];
      next_generation = generation;
    }

abbrev increment_in :
    ℕ
    → ℕ
    → ℕ
    → String
    → ℕ
    → MemoryThrottleState
    → Bool
    → Outcome ThrottleStoreRecord × MemoryThrottleState
increment_in capacity clock_max now key window st true = count_up now key (compact capacity st)
increment_in capacity clock_max now key window st false =
    if ltb clock_max (now + window)
    then (fail (startup_error (text "throttle window exceeds the clock range")), st)
    else count_up now key
        (compact capacity (open_window key (now + window) (make_room capacity st)))

unfoldable pub increment :
    (capacity clock_max now : ℕ)
    → String
    → (window : ℕ) → MemoryThrottleState
    → Outcome ThrottleStoreRecord × MemoryThrottleState
unfolding expire evict
increment capacity clock_max now key window st =
    let st1 = drop_expired now st in
    increment_in capacity clock_max now key window st1 (has (get st1.buckets key))
