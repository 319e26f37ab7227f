-- ===== src/Redis/Broker/Tallies.antt =====
-- crates/caelix-microservices/src/redis_transport.rs: counting the effects of a history, and what the
-- heartbeats add to one.
use caelix.Prelude.{
  ℕ, zero, suc, String, ◌≡◌, refl, ◌⊎◌, inl, inr, Bool, true, false, none, List, ◌∷◌, Option-cases,
}
use caelix.Messages.{MicroserviceError, transport}
pub use caelix.Messages.History.{tally, newest, repeated, tally-repeated}
use caelix.Messages.Effects.{Result, ok, err, times}
use caelix.Redis.Broker.{
  Entry, Effect, Environment, xack, xack_xdel, xclaim, xpending, publish, xadd, invocation,
  touch_pending,
}

abbrev pub is_invocation : Effect → Bool
is_invocation (xack e) = false
is_invocation (xack_xdel e) = false
is_invocation (xclaim e) = false
is_invocation (xpending e) = false
is_invocation (publish c b) = false
is_invocation (xadd s b) = false
is_invocation (invocation m c v) = true

-- The entry leaves the group's pending entries.
abbrev pub is_completion : Effect → Bool
is_completion (xack e) = true
is_completion (xack_xdel e) = true
is_completion (xclaim e) = false
is_completion (xpending e) = false
is_completion (publish c b) = false
is_completion (xadd s b) = false
is_completion (invocation m c v) = false

abbrev pub is_dead_letter : Effect → Bool
is_dead_letter (xack e) = false
is_dead_letter (xack_xdel e) = false
is_dead_letter (xclaim e) = false
is_dead_letter (xpending e) = false
is_dead_letter (publish c b) = false
is_dead_letter (xadd s b) = true
is_dead_letter (invocation m c v) = false

module _ (env : Environment) (entry : Entry) where
  -- The heartbeats were sent, or one was refused.
  abbrev pub Beats : ℕ → List Effect → Result MicroserviceError (Unit {0}) × List Effect → Type 0
  Beats n h r =
      (r ≡ (ok tt, repeated n (xclaim entry) h))
      ⊎ ((k : ℕ) × (e : String) × (r
            ≡ (err (transport e), xclaim entry ∷ repeated k (xclaim entry) h)))

  pub times-Beats : (n : ℕ) (h : List Effect) → Beats n h (times n (touch_pending env entry) h)
  times-Beats zero h = inl refl
  times-Beats (suc n) h = elim (Option-cases (env.answer h (xclaim entry))) [
    | inl fine ↦ elim (times-Beats n (xclaim entry ∷ h)) [
      | inl all ↦ inl (rw fine all)
      | inr (k, e, stopped) ↦ inr (suc k, e, rw fine stopped)
    ]
    | inr (e, bad) ↦ inr (0, e, rw bad refl)
  ]

-- A broker that refuses nothing.
abbrev pub Accepts : Environment → Type 0
Accepts env = (h : List Effect) (x : Effect) → env.answer h x ≡ none

pub times-accepted :
    (env : Environment) (entry : Entry) (n : ℕ) (h : List Effect)
    → Accepts env
    → times n (touch_pending env entry) h ≡ (ok tt, repeated n (xclaim entry) h)
times-accepted env entry zero h up = refl
times-accepted env entry (suc n) h up =
    rw (up h (xclaim entry)) (times-accepted env entry n (xclaim entry ∷ h) up)
