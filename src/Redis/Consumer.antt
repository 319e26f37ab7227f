-- ===== src/Redis/Consumer.antt =====
-- crates/caelix-microservices/src/redis_transport.rs: the loop of `command_loop` and `event_loop`,
-- which differ only in the stream that they read and in the task that they spawn.
use caelix.Prelude.{
  ℕ, ◌-◌, ◌≤◌, String, Bool, true, false, leb, Option, none, some, List, [], ◌∷◌, if◌then◌else◌,
  length, inl, inr, Bool-cases, arith, ◌<◌,
}
use caelix.Messages.{MicroserviceError}
use caelix.Messages.Effects.{Result, ok, err}
use caelix.Messages.Pool.{
  JoinResult, task_result, wait_for_handler_tasks, Pool, empty_pool, spawn, join, Progress, going,
  ended, IsWithin, AreWithin,
}

-- The ids of the entries that the broker returns.
abbrev pub Entries : Type 0
Entries = Result MicroserviceError (List String)

-- What happens outside during one iteration: the cancellation, the tasks that have ended, at capacity
-- the next task to end unless the cancellation is first, and the broker's entries for a COUNT.
pub record Iteration : Type 0 where
  pub cancelled : Bool
  pub finished : List JoinResult
  pub next : Option JoinResult
  pub reclaim : ℕ → Entries
  pub read_group : ℕ → Entries

-- The tasks that are left when the loop ends by cancellation.
module _ (concurrency : ℕ) (rest : List JoinResult) where
  abbrev pub join_next : Option JoinResult → Pool → Progress
  join_next none pool = ended (wait_for_handler_tasks rest)
  join_next (some r) pool = elim (task_result r) [
    | ok u ↦ going (join 1 pool)
    | err e ↦ ended (err e)
  ]

  abbrev pub spawn_entries : Entries → Pool → Progress
  spawn_entries (ok ids) pool = going (spawn (length ids) pool)
  spawn_entries (err e) pool = ended (err e)

  -- Entries that were left pending come before new ones.
  abbrev pub fetch : Entries → Entries → Entries
  fetch (ok []) read = read
  fetch (ok (id ∷ ids)) read = ok (id ∷ ids)
  fetch (err e) read = err e

  unfoldable pub refill : Iteration → Pool → Progress
  refill it pool =
      if leb concurrency pool.in_flight
      then join_next it.next pool
      else let capacity = concurrency - pool.in_flight in
        spawn_entries (fetch (it.reclaim capacity) (it.read_group capacity)) pool

  abbrev pub drained : Result MicroserviceError (Unit {0}) → Iteration → Pool → Progress
  drained (ok u) it pool = refill it (join (length it.finished) pool)
  drained (err e) it pool = ended (err e)

  abbrev pub unless_cancelled : Bool → Iteration → Pool → Progress
  unless_cancelled true it pool = ended (wait_for_handler_tasks rest)
  unless_cancelled false it pool = drained (wait_for_handler_tasks it.finished) it pool

  unfoldable pub loop_step : Iteration → Pool → Progress
  loop_step it pool = unless_cancelled it.cancelled it pool

  unfoldable pub consumer_loop : List Iteration → Progress → Progress
  unfolding loop_step
  consumer_loop [] p = p
  consumer_loop (it ∷ its) (ended r) = ended r
  consumer_loop (it ∷ its) (going pool) = consumer_loop its (loop_step it pool)

  abbrev pub advance : Iteration → Progress → Progress
  advance it (ended r) = ended r
  advance it (going pool) = loop_step it pool

  -- The broker returns no more entries than asked for.
  abbrev pub CountsHold : Entries → ℕ → Type 0
  CountsHold (ok ids) n = length ids ≤ n
  CountsHold (err e) n = Unit

  -- A set returns only tasks that it holds.
  abbrev pub Holds : Iteration → Progress → Type 0
  Holds it (ended r) = Unit
  Holds it (going pool) = length it.finished ≤ pool.in_flight

  abbrev pub AreFaithful : List Iteration → Progress → Type 0
  AreFaithful [] p = Unit
  AreFaithful (it ∷ its) p =
      (((n : ℕ) → CountsHold (it.reclaim n) n) × ((n : ℕ) → CountsHold (it.read_group n) n))
      × (Holds it p × AreFaithful its (advance it p))

  fetch-CountsHold :
      (claimed read : Entries) (n : ℕ)
      → CountsHold claimed n
      → CountsHold read n
      → CountsHold (fetch claimed read) n
  fetch-CountsHold (ok []) read n h k = k
  fetch-CountsHold (ok (id ∷ ids)) read n h k = h
  fetch-CountsHold (err e) read n h k = tt

  join_next-AreWithin :
      (next : Option JoinResult) (pool : Pool)
      → 0 < concurrency
      → concurrency ≤ pool.in_flight
      → IsWithin concurrency pool
      → AreWithin concurrency (join_next next pool)
  join_next-AreWithin none pool positive full w = tt
  join_next-AreWithin (some r) pool positive full w = go (task_result r)
    where
      go :
          (x : Result MicroserviceError (Unit {0}))
          → AreWithin concurrency (elim x [ ok u ↦ going (join 1 pool) | err e ↦ ended (err e) ])
      go (ok u) = (omega (arith, w.0), omega (arith, w.1, positive, full))
      go (err e) = tt

  spawn_entries-AreWithin :
      (entries : Entries) (pool : Pool)
      → CountsHold entries (concurrency - pool.in_flight)
      → pool.in_flight ≤ concurrency
      → IsWithin concurrency pool
      → AreWithin concurrency (spawn_entries entries pool)
  spawn_entries-AreWithin (ok ids) pool h room w = (omega (arith, h, room), omega (arith, w.1))
  spawn_entries-AreWithin (err e) pool h room w = tt

  module _ (positive : 0 < concurrency) where
    refill-AreWithin :
        (it : Iteration) (pool : Pool)
        → ((n : ℕ) → CountsHold (it.reclaim n) n)
        → ((n : ℕ) → CountsHold (it.read_group n) n)
        → IsWithin concurrency pool
        → AreWithin concurrency (refill it pool)
    unfolding refill
    refill-AreWithin it pool claimed read w = elim (Bool-cases (leb concurrency pool.in_flight)) [
      | inl full ↦ rw full (join_next-AreWithin it.next pool positive (ground arith) w)
      | inr room ↦
          let n = concurrency - pool.in_flight in
          rw room (
            spawn_entries-AreWithin (fetch (it.reclaim n) (it.read_group n)) pool
              (fetch-CountsHold (it.reclaim n) (it.read_group n) n (claimed n) (read n)) w.0 w)
    ]

    drained-AreWithin :
        (r : Result MicroserviceError (Unit {0})) (it : Iteration) (pool : Pool)
        → ((n : ℕ) → CountsHold (it.reclaim n) n)
        → ((n : ℕ) → CountsHold (it.read_group n) n)
        → length it.finished ≤ pool.in_flight
        → IsWithin concurrency pool
        → AreWithin concurrency (drained r it pool)
    drained-AreWithin (err e) it pool claimed read holds w = tt
    drained-AreWithin (ok u) it pool claimed read holds w =
        refill-AreWithin it (join (length it.finished) pool) claimed read
          (omega (arith, w.0), omega (arith, w.1, holds))

    advance-AreWithin :
        (it : Iteration) (p : Progress)
        → ((n : ℕ) → CountsHold (it.reclaim n) n)
        → ((n : ℕ) → CountsHold (it.read_group n) n)
        → Holds it p
        → AreWithin concurrency p
        → AreWithin concurrency (advance it p)
    unfolding loop_step
    advance-AreWithin it (ended r) claimed read holds w = tt
    advance-AreWithin it (going pool) claimed read holds w = go it.cancelled
      where
        go : (c : Bool) → AreWithin concurrency (unless_cancelled c it pool)
        go true = tt
        go false =
            drained-AreWithin (wait_for_handler_tasks it.finished) it pool claimed read holds w

    consumer_loop-AreWithin_from :
        (its : List Iteration) (p : Progress)
        → AreFaithful its p
        → AreWithin concurrency p
        → AreWithin concurrency (consumer_loop its p)
    unfolding consumer_loop
    consumer_loop-AreWithin_from [] p f w = w
    consumer_loop-AreWithin_from (it ∷ its) (ended r) f w = tt
    consumer_loop-AreWithin_from (it ∷ its) (going pool) ((claimed, read), (holds, f)) w =
        consumer_loop-AreWithin_from its (loop_step it pool) f
          (advance-AreWithin it (going pool) claimed read holds w)

-- However iterations go, a consumer never has more handler tasks in flight than the configured
-- concurrency, and every task that it spawned is in flight or was joined. The broker returns no more
-- entries than the COUNT asked for, and the task set only tasks that it holds.
pub consumer_loop-AreWithin :
    (concurrency : ℕ) (rest : List JoinResult) (its : List Iteration)
    → 0 < concurrency
    → AreFaithful concurrency rest its (going empty_pool)
    → AreWithin concurrency (consumer_loop concurrency rest its (going empty_pool))
consumer_loop-AreWithin concurrency rest its positive f =
    consumer_loop-AreWithin_from concurrency rest positive its (going empty_pool) f
      (omega arith, omega arith)
