-- ===== src/Throttle/Quota.antt =====
-- crates/caelix-core/src/throttle.rs: how many requests of a client pass within a window.
use caelix.Prelude.{
  ℕ, zero, suc, ◌+◌, ◌-◌, ◌*◌, ◌/◌, ◌%◌, ◌^◌, min, ◌≤◌, ◌<◌, ◌≡◌, refl, sym, ap, subst, ◌∙◌, ◌⊎◌,
  inl, inr, String, Bool, true, false, Option, none, some, List, [], ◌∷◌, ltb, leb, ◌==◌,
  Bool-cases, ltb→lt, ==_iff, length, arith, All,
}
use caelix.Errors.{◌>>=◌, Outcome, done, fail, panicked, out_of_fuel}
use caelix.Container.{has}
use caelix.Maps.{get, get-write_self}
use caelix.Throttle.{
  MemoryBucket, MemoryThrottleState, ThrottleStoreRecord, index_limit, compact, drop_expired,
  make_room, open_window, increment,
}
use caelix.Throttle.Expiry.{live}
use caelix.Throttle.Room.{Indexed, get-drop_expired}
use caelix.Throttle.Window.{
  counted, fresh_bucket, get-open_window, increment_counts, increment_opens,
}
use caelix.Throttle.States.{WellFormed, increment-WellFormed}
use caelix.Throttle.Service.{
  ThrottlePolicy, TooManyRequests, retry_seconds, judge, judged, check, check_all,
}

-- The store holds a bucket of the key with this count and end.
pub record Holds (st : MemoryThrottleState) (key : String) (count expires_at : ℕ) : Type 0 where
  pub bucket : MemoryBucket
  pub found : get st.buckets key ≡ some bucket
  pub counts : bucket.count ≡ count
  pub ends : bucket.expires_at ≡ expires_at

-- What an increment within a window, or one that opens a window, returns and leaves.
record Hit (key : String) (count retry expires_at : ℕ)
    (r : Outcome ThrottleStoreRecord × MemoryThrottleState) : Type 0 where
  result : r.0 ≡ done (record { count = count; retry_after = retry })
  holds : Holds r.1 key count expires_at

module _ (capacity clock_max now : ℕ) (key : String) (window : ℕ) (st : MemoryThrottleState) where
  abbrev after_increment : Outcome ThrottleStoreRecord × MemoryThrottleState
  after_increment = increment capacity clock_max now key window st

  counted-Holds :
      (b : MemoryBucket) (s : MemoryThrottleState)
      → get s.buckets key ≡ some b
      → Holds (counted now key b s) key (min (suc b.count) (2 ^ 64 - 1)) b.expires_at
  counted-Holds b s found =
      let held : has (get s.buckets key) ≡ true = rw found in
      record {
        bucket = record b { count = min (suc b.count) (2 ^ 64 - 1) };
        found =
            get-write_self s.buckets key (record b { count = min (suc b.count) (2 ^ 64 - 1) }) held;
        counts = refl;
        ends = refl;
      }

  Hit-within :
      (count expires_at : ℕ)
      → Indexed st
      → Holds st key count expires_at
      → now < expires_at
      → Hit key (min (suc count) (2 ^ 64 - 1)) (expires_at - now) expires_at after_increment
  Hit-within count expires_at i h early =
      let b = h.bucket in
      let late : now < b.expires_at = subst (λ t. now < t) (sym h.ends) early in
      let test : ltb now b.expires_at ≡ true = ground arith in
      let kept : live now (get st.buckets key) ≡ some b = rw (h.found, test) in
      let found : get (drop_expired now st).buckets key ≡ some b =
        get-drop_expired now st key i ∙ kept in
      let raw : Hit key (min (suc b.count) (2 ^ 64 - 1)) (b.expires_at - now) b.expires_at
          after_increment =
        subst (Hit key (min (suc b.count) (2 ^ 64 - 1)) (b.expires_at - now) b.expires_at)
          (sym (increment_counts capacity clock_max now key window st b found))
          (record {
            result = refl;
            holds = counted-Holds b (compact capacity (drop_expired now st)) found;
          }) in
      subst (λ t. Hit key (min (suc count) (2 ^ 64 - 1)) (t - now) t after_increment) h.ends
        (subst
          (λ n.
            Hit key (min (suc n) (2 ^ 64 - 1)) (b.expires_at - now) b.expires_at after_increment)
          h.counts raw)

  Hit-first :
      Indexed st
      → live now (get st.buckets key) ≡ none
      → now + window ≤ clock_max
      → Hit key 1 window (now + window) after_increment
  Hit-first i free fits =
      let absent = get-drop_expired now st key i ∙ free in
      let near : ltb clock_max (now + window) ≡ false = ground arith in
      let left : now + window - now ≡ window = omega arith in
      let room = make_room capacity (drop_expired now st) in
      subst (λ t. Hit key 1 t (now + window) after_increment) left
        (subst (Hit key 1 (now + window - now) (now + window))
          (sym (increment_opens capacity clock_max now key window st absent near))
          (record {
            result = refl;
            holds =
                counted-Holds (fresh_bucket now window room)
                  (compact capacity (open_window key (now + window) room))
                  (get-open_window key now window room);
          }))

-- An answer lets a request pass or tells the client to wait; an error does neither.
abbrev pub verdict : Outcome (Option TooManyRequests) → Option Bool
verdict (done none) = some true
verdict (done (some x)) = some false
verdict (fail e) = none
verdict panicked = none
verdict out_of_fuel = none

abbrev pub verdicts : List (Outcome (Option TooManyRequests)) → List (Option Bool)
verdicts [] = []
verdicts (r ∷ rs) = verdict r ∷ verdicts rs

-- Of n requests the first `left` pass, and the others are told to wait.
abbrev pub first_pass : (left n : ℕ) → List (Option Bool)
first_pass left zero = []
first_pass zero (suc n) = some false ∷ first_pass zero n
first_pass (suc left) (suc n) = some true ∷ first_pass left n

verdict-judge :
    (header : Bool) (limit : ℕ) (r : ThrottleStoreRecord)
    → verdict (done (judge header limit r)) ≡ some (leb r.count limit)
verdict-judge header limit r = elim (Bool-cases (leb r.count limit)) [
  | inl pass ↦ rw pass
  | inr over ↦ rw over
]

-- One more request of a count that saturates at `top`.
quota_step :
    (limit top count n : ℕ)
    → limit < top
    → some (leb (min (suc count) top) limit) ∷ first_pass (limit - min (suc count) top) n
      ≡ first_pass (limit - count) (suc n)
quota_step limit top count n h = elim (Bool-cases (leb (min (suc count) top) limit)) [
  | inl pass ↦
      let le : min (suc count) top ≤ limit = ground arith in
      let more : limit - count ≡ suc (limit - min (suc count) top) = omega arith in rw (pass, more)
  | inr over ↦
      let gt : limit < min (suc count) top = ground arith in
      let spent : limit - count ≡ 0 = omega arith in
      let after : limit - min (suc count) top ≡ 0 = omega arith in rw (over, spent, after)
]

no_requests : (left : ℕ) → [] ≡ first_pass left 0
no_requests zero = refl
no_requests (suc left) = refl

check_valid :
    (header : Bool) (capacity clock_max now : ℕ) (key : String) (policy : ThrottlePolicy)
    (st : MemoryThrottleState)
    → 0 < policy.limit
    → 0 < policy.window
    → now + policy.window ≤ clock_max
    → check header capacity clock_max now key policy st
      ≡ judged header policy.limit (increment capacity clock_max now key policy.window st)
unfolding check
check_valid header capacity clock_max now key policy st l w fits =
    let a : (policy.limit == 0) ≡ false = ground arith in
    let b : (policy.window == 0) ≡ false = ground arith in
    let c : ltb clock_max (now + policy.window) ≡ false = ground arith in rw (a, b, c)

module _ (header : Bool) (capacity clock_max : ℕ) (key : String) (policy : ThrottlePolicy)
    (positive : 0 < policy.limit) (bounded : policy.limit < 2 ^ 64 - 1)
    (lasting : 0 < policy.window) (pos : 0 < capacity)
    (fits : capacity ≤ index_limit capacity) where
  -- One request of a run, from what its increment returns and leaves.
  verdicts-Hit :
      (now : ℕ) (times : List ℕ) (st : MemoryThrottleState) (count retry expires_at : ℕ)
      → now + policy.window ≤ clock_max
      → Hit key
          (min (suc count) (2 ^ 64 - 1))
          retry
          expires_at
          (increment capacity clock_max now key policy.window st)
      → verdicts
          (check_all header capacity clock_max key policy times
            (increment capacity clock_max now key policy.window st).1).0
        ≡ first_pass (policy.limit - min (suc count) (2 ^ 64 - 1)) (length times)
      → verdicts (check_all header capacity clock_max key policy (now ∷ times) st).0
        ≡ first_pass (policy.limit - count) (suc (length times))
  unfolding check_all
  verdicts-Hit now times st count retry expires_at clock hit rest =
      let inc = increment capacity clock_max now key policy.window st in
      let r : ThrottleStoreRecord = record {
        count = min (suc count) (2 ^ 64 - 1);
        retry_after = retry;
      } in
      let first : (check header capacity clock_max now key policy st).0
          ≡ done (judge header policy.limit r) =
        ap (λ x. x.0)
          (check_valid header capacity clock_max now key policy st positive lasting clock)
        ∙ ap (λ o. o >>= λ x. done (judge header policy.limit x)) hit.result in
      let left : (check header capacity clock_max now key policy st).1 ≡ inc.1 =
        ap (λ x. x.1)
          (check_valid header capacity clock_max now key policy st positive lasting clock) in
      let later = (check_all header capacity clock_max key policy times inc.1).0 in
      ap
        (λ s. verdicts (
          (check header capacity clock_max now key policy st).0
          ∷ (check_all header capacity clock_max key policy times s).0))
        left
      ∙ ap (λ o. verdicts (o ∷ later)) first
      ∙ ap (λ v. v ∷ verdicts later) (verdict-judge header policy.limit r)
      ∙ ap (λ l. some (leb r.count policy.limit) ∷ l) rest
      ∙ quota_step policy.limit (2 ^ 64 - 1) count (length times) bounded

  verdicts-within :
      (times : List ℕ) (st : MemoryThrottleState) (count expires_at : ℕ)
      → All (λ t. (t < expires_at) × (t + policy.window ≤ clock_max)) times
      → WellFormed capacity st
      → Holds st key count expires_at
      → verdicts (check_all header capacity clock_max key policy times st).0
        ≡ first_pass (policy.limit - count) (length times)
  unfolding check_all
  verdicts-within [] st count expires_at all w h = no_requests (policy.limit - count)
  verdicts-within (now ∷ times) st count expires_at ((early, clock), all) w h =
      let hit =
        Hit-within capacity clock_max now key policy.window st count expires_at w.0 h early in
      verdicts-Hit now times st count (expires_at - now) expires_at clock hit (
        verdicts-within times (increment capacity clock_max now key policy.window st).1
          (min (suc count) (2 ^ 64 - 1)) expires_at all
          (increment-WellFormed capacity clock_max now key policy.window st pos fits w) hit.holds)

-- A well-formed store with room for a key has no live bucket of a client's key. Of the requests of this
-- client, from one that opens a window to the end of that window and with no request of another key
-- between them, exactly the first `limit` pass and the others are told to wait, without an error, for a
-- limit that is not 0 and below the largest 64-bit number, a window that is not 0, and times at which a
-- window does not end past the clock.
pub check_all_quota :
    (header : Bool) (capacity clock_max : ℕ) (key : String) (policy : ThrottlePolicy) (now : ℕ)
    (times : List ℕ) (st : MemoryThrottleState)
    → 0 < policy.limit
    → policy.limit < 2 ^ 64 - 1
    → 0 < policy.window
    → 0 < capacity
    → capacity ≤ index_limit capacity
    → WellFormed capacity st
    → live now (get st.buckets key) ≡ none
    → now + policy.window ≤ clock_max
    → All (λ t. (t < now + policy.window) × (t + policy.window ≤ clock_max)) times
    → verdicts (check_all header capacity clock_max key policy (now ∷ times) st).0
      ≡ first_pass policy.limit (suc (length times))
check_all_quota header capacity clock_max key policy now times st l u w pos fits well free clock
      all =
    let hit = Hit-first capacity clock_max now key policy.window st well.0 free clock in
    let whole : policy.limit - 0 ≡ policy.limit = omega arith in
    subst
      (λ n.
        verdicts (check_all header capacity clock_max key policy (now ∷ times) st).0
        ≡ first_pass n (suc (length times)))
      whole
      (verdicts-Hit header capacity clock_max key policy l u w pos fits now times st 0 policy.window
        (now + policy.window) clock hit
        (verdicts-within header capacity clock_max key policy l u w pos fits times
          (increment capacity clock_max now key policy.window st).1 1 (now + policy.window) all
          (increment-WellFormed capacity clock_max now key policy.window st pos fits well)
          hit.holds))

-- A client that waits for as long as `Retry-After` says comes behind the end of the window, and it is
-- not told to wait a second longer than that, but for the least of one second.
pub retry_seconds_bounds :
    (r : ℕ)
    → (r ≤ retry_seconds r * 1000000000)
      × ((retry_seconds r ≡ 1) ⊎ (retry_seconds r * 1000000000 < r + 1000000000))
retry_seconds_bounds r = elim (Bool-cases (ltb 0 (r % 1000000000))) [
  | inl rest ↦
      let some_rest : 0 < r % 1000000000 = ltb→lt 0 (r % 1000000000) rest in
      rw rest (omega arith, inr (omega arith))
  | inr whole ↦
      let no_rest : r % 1000000000 ≡ 0 = ground arith in
      elim (Bool-cases (r / 1000000000 == 0)) [
        | inl short ↦
            let least : r / 1000000000 ≡ 0 = (==_iff (r / 1000000000) 0).0 short in
            rw whole (omega arith, inl (omega arith))
        | inr long ↦
            let more : 0 < r / 1000000000 = ground arith in
            rw whole (omega arith, inr (omega arith))
      ]
]
