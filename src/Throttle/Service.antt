-- ===== src/Throttle/Service.antt =====
-- crates/caelix-core/src/throttle.rs: `Throttle::check` over the in-memory store.
-- The key, which the source builds from the client, the method and the route, is an argument.
use caelix.Prelude.{
  ℕ, ◌+◌, ◌/◌, ◌%◌, max, String, Bool, ◌||◌, Option, none, some, List, [], ◌∷◌, ltb, leb, ◌==◌,
  if◌then◌else◌,
}
use caelix.Errors.{text, Outcome, done, fail, panicked, out_of_fuel, ◌>>=◌, ◌>>◌, fail_if}
use caelix.Throttle.{MemoryThrottleState, ThrottleStoreRecord, increment}

-- The window is in nanoseconds.
pub record ThrottlePolicy : Type 0 where
  pub limit : ℕ
  pub window : ℕ

abbrev pub validate_policy : (clock_max now : ℕ) → ThrottlePolicy → Outcome (Unit {0})
validate_policy clock_max now policy = do
  fail_if (policy.limit == 0 || policy.window == 0)
      (text "throttle limit and window must be greater than zero")
  fail_if (ltb clock_max (now + policy.window)) (text "throttle window exceeds the clock range")

-- The response to a rejected request: the status 429, and the value of `Retry-After`.
pub record TooManyRequests : Type 0 where
  pub retry_after : Option ℕ

-- The whole seconds of a duration, and one more for a rest, but at least one.
abbrev pub retry_seconds : ℕ → ℕ
retry_seconds r = max (r / 1000000000 + (if ltb 0 (r % 1000000000) then 1 else 0)) 1

abbrev pub judge : Bool → ℕ → ThrottleStoreRecord → Option TooManyRequests
judge header limit r =
    if leb r.count limit
    then none
    else some (record { retry_after = if header then some (retry_seconds r.retry_after) else none })

abbrev pub judged :
    Bool
    → ℕ
    → Outcome ThrottleStoreRecord × MemoryThrottleState
    → Outcome (Option TooManyRequests) × MemoryThrottleState
judged header limit (r, st) = (r >>= λ x. done (judge header limit x), st)

abbrev checked :
    (header : Bool) (capacity clock_max now : ℕ)
    → String
    → ThrottlePolicy
    → MemoryThrottleState
    → Outcome (Unit {0})
    → Outcome (Option TooManyRequests) × MemoryThrottleState
checked header capacity clock_max now key policy st (done u) =
    judged header policy.limit (increment capacity clock_max now key policy.window st)
checked header capacity clock_max now key policy st (fail e) = (fail e, st)
checked header capacity clock_max now key policy st panicked = (panicked, st)
checked header capacity clock_max now key policy st out_of_fuel = (out_of_fuel, st)

unfoldable pub check :
    (header : Bool) (capacity clock_max now : ℕ)
    → String
    → ThrottlePolicy
    → MemoryThrottleState
    → Outcome (Option TooManyRequests) × MemoryThrottleState
unfolding increment
check header capacity clock_max now key policy st =
    checked header capacity clock_max now key policy st (validate_policy clock_max now policy)

-- The requests of one client at the given times, with the answers.
unfoldable pub check_all :
    (header : Bool) (capacity clock_max : ℕ)
    → String
    → ThrottlePolicy
    → List ℕ
    → MemoryThrottleState
    → List (Outcome (Option TooManyRequests)) × MemoryThrottleState
unfolding check
check_all header capacity clock_max key policy [] st = ([], st)
check_all header capacity clock_max key policy (now ∷ times) st =
    let (r, st1) = check header capacity clock_max now key policy st in
    let (rs, st2) = check_all header capacity clock_max key policy times st1 in (r ∷ rs, st2)
