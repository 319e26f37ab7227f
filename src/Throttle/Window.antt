-- ===== src/Throttle/Window.antt =====
-- crates/caelix-core/src/throttle.rs: `increment` counts in fixed windows.
use caelix.Prelude.{
  ℕ, suc, ◌+◌, ◌-◌, ◌^◌, ◌%◌, min, ◌≡◌, refl, sym, ap, ◌∙◌, inl, inr, String, true, false, Option,
  none, some, ltb, Bool-cases, Option-cases, if◌then◌else◌, str_eq, str_eq_refl, arith,
}
use caelix.Errors.{text, Outcome, done, fail, startup_error}
use caelix.Throttle.{
  MemoryBucket, MemoryThrottleState, ThrottleStoreRecord, compact, count_up, drop_expired,
  make_room, open_window, increment,
}
use caelix.Maps.{get, write}
use caelix.Throttle.Expiry.{live}
use caelix.Throttle.Room.{Indexed, get-drop_expired}

-- The limit of an increment by a fixed window, from the bucket of the key that is alive.
abbrev pub fixed_window :
    (clock_max now window : ℕ) → Option MemoryBucket → Outcome ThrottleStoreRecord
fixed_window clock_max now window none =
    if ltb clock_max (now + window)
    then fail (startup_error (text "throttle window exceeds the clock range"))
    else done (record { count = 1; retry_after = window })
fixed_window clock_max now window (some b) =
    done (record { count = min (suc b.count) (2 ^ 64 - 1); retry_after = b.expires_at - now })

abbrev pub counted : ℕ → String → MemoryBucket → MemoryThrottleState → MemoryThrottleState
counted now key b st = record st {
  buckets = write st.buckets key (record b { count = min (suc b.count) (2 ^ 64 - 1) });
}

count_up-some :
    (now : ℕ) (key : String) (b : MemoryBucket) (st : MemoryThrottleState)
    → get st.buckets key ≡ some b
    → count_up now key st ≡ (
      done (record { count = min (suc b.count) (2 ^ 64 - 1); retry_after = b.expires_at - now }),
      counted now key b st,
    )
count_up-some now key b st found = rw found

abbrev pub fresh_bucket : ℕ → ℕ → MemoryThrottleState → MemoryBucket
fresh_bucket now window st = record {
  count = 0;
  expires_at = now + window;
  generation = (st.next_generation + 1) % 2 ^ 64;
}

pub get-open_window :
    (key : String) (now window : ℕ) (st : MemoryThrottleState)
    → get (open_window key (now + window) st).buckets key ≡ some (fresh_bucket now window st)
get-open_window key now window st = let self : str_eq key key ≡ true = str_eq_refl key in rw self

module _ (capacity clock_max now : ℕ) (key : String) (window : ℕ) (st : MemoryThrottleState) where
  abbrev alive : MemoryThrottleState
  alive = drop_expired now st

  abbrev opened : MemoryThrottleState
  opened = compact capacity (open_window key (now + window) (make_room capacity alive))

  pub increment_counts :
      (b : MemoryBucket)
      → get alive.buckets key ≡ some b
      → increment capacity clock_max now key window st ≡ (
        done (record { count = min (suc b.count) (2 ^ 64 - 1); retry_after = b.expires_at - now }),
        counted now key b (compact capacity alive),
      )
  unfolding increment
  increment_counts b found = rw found (count_up-some now key b (compact capacity alive) found)

  pub increment_refuses :
      get alive.buckets key ≡ none
      → ltb clock_max (now + window) ≡ true
      → increment capacity clock_max now key window st
        ≡ (fail (startup_error (text "throttle window exceeds the clock range")), alive)
  unfolding increment
  increment_refuses absent far = rw (absent, far)

  pub increment_opens :
      get alive.buckets key ≡ none
      → ltb clock_max (now + window) ≡ false
      → increment capacity clock_max now key window st ≡ (
        done (record { count = 1; retry_after = now + window - now }),
        counted now key (fresh_bucket now window (make_room capacity alive)) opened,
      )
  unfolding increment
  increment_opens absent near =
      rw (absent, near)
        (count_up-some now key (fresh_bucket now window (make_room capacity alive)) opened
          (get-open_window key now window (make_room capacity alive)))

  result-fixed_window :
      Indexed st
      → (increment capacity clock_max now key window st).0
        ≡ fixed_window clock_max now window (live now (get st.buckets key))
  result-fixed_window i =
      let same = get-drop_expired now st key i in
      elim (Option-cases (get alive.buckets key)) [
        | inr (b, found) ↦
            ap (λ r. r.0) (increment_counts b found)
            ∙ ap (fixed_window clock_max now window) (sym found ∙ same)
        | inl absent ↦ elim (Bool-cases (ltb clock_max (now + window))) [
          | inl far ↦
              ap (λ r. r.0) (increment_refuses absent far)
              ∙ rw (far) refl
              ∙ ap (fixed_window clock_max now window) (sym absent ∙ same)
          | inr near ↦
              let left : now + window - now ≡ window = omega arith in
              ap (λ r. r.0) (increment_opens absent near)
              ∙ rw (near) (ap (λ n. done (record { count = 1; retry_after = n })) left)
              ∙ ap (fixed_window clock_max now window) (sym absent ∙ same)
        ]
      ]

-- The result of an increment is that of a fixed window: behind the end of a key's window, or without
-- one, the count is 1 and the whole window remains; within it, the count is one more, up to the
-- largest 64-bit number, and the rest of the window remains. A window past the clock is an error.
pub increment-fixed_window :
    (capacity clock_max now : ℕ) (key : String) (window : ℕ) (st : MemoryThrottleState)
    → Indexed st
    → (increment capacity clock_max now key window st).0
      ≡ fixed_window clock_max now window (live now (get st.buckets key))
increment-fixed_window capacity clock_max now key window st i =
    result-fixed_window capacity clock_max now key window st i
