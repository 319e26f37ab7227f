-- ===== src/Tests/Limits.antt =====
-- The throttle store: windows, eviction and expiry.
use caelix.Prelude.{
  some, ◌∷◌, [], true, ◌*◌, ◌⊎◌, ◌≤◌, ◌<◌, ℕ, String, ◌≡◌, ◌≢◌, refl, ap, str_eq, ◌≤◌, none, arith,
}
use caelix.Errors.{done}
use caelix.Maps.{get}
use caelix.Throttle.{MemoryThrottleState, empty, index_limit, increment}
use caelix.Throttle.Expiry.{live}
use caelix.Throttle.Service.{ThrottlePolicy, retry_seconds, check_all}
use caelix.Throttle.Quota.{verdicts, first_pass, check_all_quota, retry_seconds_bounds}
use caelix.Throttle.Window.{fixed_window, increment-fixed_window}
use caelix.Throttle.States.{WellFormed, Spared, increment-WellFormed, increment-Spared}

abbrev clock : ℕ
clock = 1000000

-- A store for two keys.
abbrev after_one : MemoryThrottleState
after_one = (increment 2 clock 10 "a" 60 empty).1

abbrev after_two : MemoryThrottleState
after_two = (increment 2 clock 20 "b" 60 after_one).1

empty-WellFormed : WellFormed 2 empty
empty-WellFormed = (
  record { sorted = tt; covered = λ k b e. cc e; queued = λ k b e. cc e },
  record { few = omega arith; short_heap = omega arith; short_queue = omega arith },
)

fits : 2 ≤ index_limit 2
fits = omega arith

after_one-WellFormed : WellFormed 2 after_one
after_one-WellFormed =
    increment-WellFormed 2 clock 10 "a" 60 empty (omega arith) fits empty-WellFormed

increment-WellFormed_example : WellFormed 2 (increment 2 clock 20 "b" 60 after_one).1
increment-WellFormed_example =
    increment-WellFormed 2 clock 20 "b" 60 after_one (omega arith) fits after_one-WellFormed

increment-fixed_window_example :
    (increment 2 clock 30 "a" 60 after_one).0
    ≡ fixed_window clock 30 60 (live 30 (get after_one.buckets "a"))
increment-fixed_window_example =
    increment-fixed_window 2 clock 30 "a" 60 after_one after_one-WellFormed.0

second_hit :
    (increment 2 clock 30 "a" 60 after_one).0 ≡ done (record { count = 2; retry_after = 40 })
unfolding increment
second_hit = refl

next_window :
    (increment 2 clock 70 "a" 60 after_one).0 ≡ done (record { count = 1; retry_after = 60 })
unfolding increment
next_window = refl

abbrev first_key : String
first_key = "a"

abbrev second_key : String
second_key = "b"

keys_differ : first_key ≢ second_key
keys_differ e = cc (ap (λ s. str_eq s second_key) e)

increment-Spared_example :
    Spared 2 clock 20 first_key 60 after_one second_key
      (increment 2 clock 20 first_key 60 after_one)
increment-Spared_example =
    increment-Spared 2 clock 20 first_key 60 after_one second_key keys_differ (omega arith)
      after_one-WellFormed

-- The third key takes the place of the first.
evicted : get (increment 2 clock 30 "c" 60 after_two).1.buckets "a" ≡ none
unfolding increment
evicted = refl

-- Two requests in 60 nanoseconds.
abbrev policy : ThrottlePolicy
policy = record { limit = 2; window = 60 }

check_all_quota_example :
    verdicts (check_all true 2 clock "a" policy (10 ∷ 20 ∷ 30 ∷ []) empty).0 ≡ first_pass 2 3
check_all_quota_example =
    check_all_quota true 2 clock "a" policy 10 (20 ∷ 30 ∷ []) empty (omega arith) (omega arith)
      (omega arith) (omega arith) fits empty-WellFormed refl (omega arith)
      ((omega arith, omega arith), ((omega arith, omega arith), tt))

answers :
    (check_all true 2 clock "a" policy (10 ∷ 20 ∷ 30 ∷ 70 ∷ []) empty).0
    ≡ done none ∷ done none ∷ done (some (record { retry_after = some 1 })) ∷ done none ∷ []
unfolding check_all
answers = refl

retry_seconds_bounds_example :
    (1500000000 ≤ retry_seconds 1500000000 * 1000000000)
    × ((retry_seconds 1500000000 ≡ 1) ⊎ (retry_seconds 1500000000 * 1000000000 < 2500000000))
retry_seconds_bounds_example = retry_seconds_bounds 1500000000
