-- ===== src/Throttle/States.antt =====
-- crates/caelix-core/src/throttle.rs: the states that `increment` leaves.
use caelix.Prelude.{
  ℕ, suc, ◌+◌, ◌-◌, ◌^◌, min, ◌≤◌, ◌<◌, ◌≡◌, sym, ap, subst, ◌∙◌, ◌≢◌, ◌⊎◌, inl, inr, String, false,
  none, some, ltb, Bool-cases, Option-cases, length, str_eq, str_eq_iff, arith,
}
use caelix.Errors.{Outcome, done}
use caelix.Throttle.{
  MemoryBucket, MemoryThrottleState, ThrottleStoreRecord, index_limit, compact, drop_expired,
  make_room, open_window, increment,
}
use caelix.Maps.{
  get, remove, get-remove_ne, get-remove_self, get-write_ne, length-write, str_eq_of_ne,
}
use caelix.Throttle.Expiry.{live}
use caelix.Throttle.Room.{
  Indexed, Bounded, get-drop_expired, drop_expired-Indexed, drop_expired-Bounded, Roomy,
  make_room-Roomy, open_window-Indexed,
}
use caelix.Throttle.Invariant.{compact-Indexed, compact-Bounded, write-Indexed}
use caelix.Throttle.Window.{
  counted, fresh_bucket, get-open_window, increment_counts, increment_refuses, increment_opens,
}

-- The invariant of a store.
abbrev pub WellFormed : ℕ → MemoryThrottleState → Type 0
WellFormed capacity st = Indexed st × Bounded capacity (index_limit capacity) st

module _ (capacity clock_max now : ℕ) (key : String) (window : ℕ) (st : MemoryThrottleState) where
  abbrev pub alive : MemoryThrottleState
  alive = drop_expired now st

  abbrev opened : MemoryThrottleState
  opened = compact capacity (open_window key (now + window) (make_room capacity alive))

  counted-WellFormed :
      (b : MemoryBucket) (s : MemoryThrottleState)
      → get s.buckets key ≡ some b
      → WellFormed capacity s
      → WellFormed capacity (counted now key b s)
  counted-WellFormed b s found (i, d) = (
    write-Indexed s key b (min (suc b.count) (2 ^ 64 - 1)) found i,
    record {
      few =
          subst (λ n. n ≤ capacity)
            (sym (length-write s.buckets key (record b { count = min (suc b.count) (2 ^ 64 - 1) })))
            d.few;
      short_heap = d.short_heap;
      short_queue = d.short_queue;
    },
  )

  room : 0 < capacity → WellFormed capacity st → Roomy capacity alive (make_room capacity alive)
  room pos (i, d) =
      make_room-Roomy capacity alive pos (drop_expired-Bounded now capacity _ st d).few
        (drop_expired-Indexed now st i)

  opened-WellFormed :
      0 < capacity
      → capacity ≤ index_limit capacity
      → WellFormed capacity st
      → WellFormed capacity opened
  opened-WellFormed pos fits w =
      let r = room pos w in
      let o = open_window key (now + window) (make_room capacity alive) in
      (
        compact-Indexed capacity o (open_window-Indexed key (now + window) _ r.indexed),
        compact-Bounded capacity o (omega (arith, r.room)) fits,
      )

  state-WellFormed :
      0 < capacity
      → capacity ≤ index_limit capacity
      → WellFormed capacity st
      → WellFormed capacity (increment capacity clock_max now key window st).1
  state-WellFormed pos fits (i, d) =
      let i' = drop_expired-Indexed now st i in
      let d' = drop_expired-Bounded now capacity (index_limit capacity) st d in
      elim (Option-cases (get alive.buckets key)) [
        | inr (b, found) ↦
            subst (λ r. WellFormed capacity r.1)
              (sym (increment_counts capacity clock_max now key window st b found))
              (counted-WellFormed b (compact capacity alive) found
                (compact-Indexed capacity alive i', compact-Bounded capacity alive d'.few fits))
        | inl absent ↦ elim (Bool-cases (ltb clock_max (now + window))) [
          | inl far ↦
              subst (λ r. WellFormed capacity r.1)
                (sym (increment_refuses capacity clock_max now key window st absent far)) (i', d')
          | inr near ↦
              subst (λ r. WellFormed capacity r.1)
                (sym (increment_opens capacity clock_max now key window st absent near))
                (counted-WellFormed (fresh_bucket now window (make_room capacity alive)) opened
                  (get-open_window key now window (make_room capacity alive))
                  (opened-WellFormed pos fits (i, d)))
        ]
      ]

  -- The bucket of another key.
  get-counted_ne :
      (b : MemoryBucket) (s : MemoryThrottleState) (j : String)
      → key ≢ j
      → get (counted now key b s).buckets j ≡ get s.buckets j
  get-counted_ne b s j ne =
      get-write_ne s.buckets key j (record b { count = min (suc b.count) (2 ^ 64 - 1) }) ne

  -- What an increment may do to the bucket of another key: drop it when it is over, or when the
  -- store is full and a new bucket is opened.
  abbrev pub Spared : String → Outcome ThrottleStoreRecord × MemoryThrottleState → Type 0
  Spared j r =
      (get r.1.buckets j ≡ live now (get st.buckets j))
      ⊎ ((live now (get st.buckets key) ≡ none)
          × (capacity ≤ length alive.buckets)
          × (get r.1.buckets j ≡ none))

  get-opened_ne :
      (j : String)
      → key ≢ j
      → get alive.buckets key ≡ none
      → Roomy capacity alive (make_room capacity alive)
      → Indexed st
      → Spared j (done (record { count = 1; retry_after = window }), opened)
  get-opened_ne j ne absent r i =
      let other : str_eq key j ≡ false = str_eq_of_ne key j ne in
      let skip : get opened.buckets j ≡ get (make_room capacity alive).buckets j = rw other in
      elim r.kept [
        | inl (same, space) ↦
            inl (skip ∙ ap (λ s. get s.buckets j) same ∙ get-drop_expired now st j i)
        | inr (v, gone, held, full) ↦ elim (Bool-cases (str_eq v j)) [
          | inl e ↦
              let q : v ≡ j = (str_eq_iff v j).0 e in
              inr (
                sym (get-drop_expired now st key i) ∙ absent,
                full,
                skip
                    ∙ ap (λ m. get m j) gone
                    ∙ subst (λ x. get (remove alive.buckets v) x ≡ none) q
                        (get-remove_self alive.buckets v),
              )
          | inr e ↦ inl (
              skip
              ∙ ap (λ m. get m j) gone
              ∙ get-remove_ne alive.buckets v j (λ p. cc (e, (str_eq_iff v j).1 p))
              ∙ get-drop_expired now st j i)
        ]
      ]

  state-Spared :
      (j : String)
      → key ≢ j
      → 0 < capacity
      → WellFormed capacity st
      → Spared j (increment capacity clock_max now key window st)
  state-Spared j ne pos (i, d) =
      let kept = get-drop_expired now st j i in
      elim (Option-cases (get alive.buckets key)) [
        | inr (b, found) ↦
            subst (Spared j) (sym (increment_counts capacity clock_max now key window st b found))
              (inl (get-counted_ne b (compact capacity alive) j ne ∙ kept))
        | inl absent ↦ elim (Bool-cases (ltb clock_max (now + window))) [
          | inl far ↦
              subst (Spared j)
                (sym (increment_refuses capacity clock_max now key window st absent far)) (inl kept)
          | inr near ↦
              let b = fresh_bucket now window (make_room capacity alive) in
              let same = get-counted_ne b opened j ne in
              subst (Spared j)
                (sym (increment_opens capacity clock_max now key window st absent near))
                (elim (get-opened_ne j ne absent (room pos (i, d)) i) [
                  | inl e ↦ inl (same ∙ e)
                  | inr (n, f, e) ↦ inr (n, f, same ∙ e)
                ])
        ]
      ]

-- An increment keeps a store well-formed: the heap is sorted, each bucket is listed in the heap and
-- in the insertion order, there are no more buckets than the capacity, and the heap and the order
-- stay within twice the capacity.
pub increment-WellFormed :
    (capacity clock_max now : ℕ) (key : String) (window : ℕ) (st : MemoryThrottleState)
    → 0 < capacity
    → capacity ≤ index_limit capacity
    → WellFormed capacity st
    → WellFormed capacity (increment capacity clock_max now key window st).1
increment-WellFormed capacity clock_max now key window st pos fits w =
    state-WellFormed capacity clock_max now key window st pos fits w

-- An increment leaves the bucket of another key as it is when the bucket is alive, and drops it when
-- it is over; it drops a bucket that is alive only where the key has none and the store is full.
pub increment-Spared :
    (capacity clock_max now : ℕ) (key : String) (window : ℕ) (st : MemoryThrottleState) (j : String)
    → key ≢ j
    → 0 < capacity
    → WellFormed capacity st
    → Spared capacity clock_max now key window st j (increment capacity clock_max now key window st)
increment-Spared capacity clock_max now key window st j ne pos w =
    state-Spared capacity clock_max now key window st j ne pos w
