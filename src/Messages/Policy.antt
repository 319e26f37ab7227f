-- ===== src/Messages/Policy.antt =====
-- crates/caelix-microservices/src: what becomes of an event after its handler returned. Both
-- transports implement this policy.
use caelix.Prelude.{
  ℕ, ◌≤◌, ◌<◌, ◌≡◌, refl, inl, inr, true, false, leb, Option, none, some, String, if◌then◌else◌,
  Bool-cases, arith,
}
use caelix.Messages.{Reply, returned, raised, is_client_error}

pub data Decision : Type 0 where
  finish bury retry : Decision

-- An event is done when its handler succeeded, or refused it by an error of the 4xx class. After
-- another error it is delivered again, until it was delivered `maximum` times.
unfoldable pub decide : (maximum attempt : ℕ) → Reply → Decision
decide maximum attempt (returned v) = finish
decide maximum attempt (raised e) =
    if is_client_error e.status then finish else if leb maximum attempt then bury else retry

-- How often an event is acknowledged, and dead letters sent if there is a place for them.
abbrev pub acknowledgements : Decision → ℕ
acknowledgements finish = 1
acknowledgements bury = 1
acknowledgements retry = 0

abbrev pub dead_letters : Option String → Decision → ℕ
dead_letters (some place) bury = 1
dead_letters (some place) finish = 0
dead_letters (some place) retry = 0
dead_letters none d = 0

-- At the last attempt nothing is delivered again.
pub decide-last :
    (maximum attempt : ℕ) (reply : Reply)
    → maximum ≤ attempt
    → acknowledgements (decide maximum attempt reply) ≡ 1
unfolding decide
decide-last maximum attempt (returned v) h = refl
decide-last maximum attempt (raised e) h =
    let last : leb maximum attempt ≡ true = ground arith in
    elim (Bool-cases (is_client_error e.status)) [ inl c ↦ rw c refl | inr c ↦ rw (c, last) refl ]

-- Nothing is buried before.
pub decide-early :
    (maximum attempt : ℕ) (place : Option String) (reply : Reply)
    → attempt < maximum
    → dead_letters place (decide maximum attempt reply) ≡ 0
unfolding decide
decide-early maximum attempt none reply h = refl
decide-early maximum attempt (some p) (returned v) h = refl
decide-early maximum attempt (some p) (raised e) h =
    let early : leb maximum attempt ≡ false = ground arith in
    elim (Bool-cases (is_client_error e.status)) [ inl c ↦ rw c refl | inr c ↦ rw (c, early) refl ]
