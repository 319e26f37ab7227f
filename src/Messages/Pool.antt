-- ===== src/Messages/Pool.antt =====
-- crates/caelix-microservices/src/lib.rs: the tasks that a consumer has in flight, and their results.
use caelix.Prelude.{ℕ, ◌+◌, ◌-◌, ◌≤◌, ◌≡◌, String, List, [], ◌∷◌}
use Prim.Native.String.{◌++◌}
use caelix.Messages.{MicroserviceError, transport}
use caelix.Messages.Effects.{Result, ok, err}

-- What a `JoinSet` returns for a task: its result, or that it panicked.
pub data JoinResult : Type 0 where
  joined : Result MicroserviceError (Unit {0}) → JoinResult
  panicked : String → JoinResult

unfoldable pub task_result : JoinResult → Result MicroserviceError (Unit {0})
task_result (joined r) = r
task_result (panicked e) = err (transport ("transport task panicked: " ++ e))

abbrev pub and_then :
    Result MicroserviceError (Unit {0})
    → Result MicroserviceError (Unit {0})
    → Result MicroserviceError (Unit {0})
and_then (ok u) r = r
and_then (err e) r = err e

-- The results of the tasks that are left, in the order in which they end.
unfoldable pub wait_for_handler_tasks : List JoinResult → Result MicroserviceError (Unit {0})
unfolding task_result
wait_for_handler_tasks [] = ok tt
wait_for_handler_tasks (r ∷ rs) = and_then (task_result r) (wait_for_handler_tasks rs)

-- The tasks of a `JoinSet` by their number, with those that were ever spawned and joined.
pub record Pool : Type 0 where
  pub in_flight : ℕ
  pub spawned : ℕ
  pub joined_tasks : ℕ

abbrev pub empty_pool : Pool
empty_pool = record { in_flight = 0; spawned = 0; joined_tasks = 0 }

abbrev pub spawn : ℕ → Pool → Pool
spawn n p = record p { in_flight = p.in_flight + n; spawned = p.spawned + n }

abbrev pub join : ℕ → Pool → Pool
join n p = record p { in_flight = p.in_flight - n; joined_tasks = p.joined_tasks + n }

-- The consumer goes on, or ends with a result.
pub data Progress : Type 0 where
  going : Pool → Progress
  ended : Result MicroserviceError (Unit {0}) → Progress

-- No more tasks than allowed, and none that was not spawned.
abbrev pub IsWithin : ℕ → Pool → Type 0
IsWithin concurrency p = (p.in_flight ≤ concurrency) × (p.spawned ≡ p.in_flight + p.joined_tasks)

abbrev pub AreWithin : ℕ → Progress → Type 0
AreWithin concurrency (going p) = IsWithin concurrency p
AreWithin concurrency (ended r) = Unit
