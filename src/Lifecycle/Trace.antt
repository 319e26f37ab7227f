-- ===== src/Lifecycle/Trace.antt =====
-- crates/caelix-core/src/module.rs: the trace of a run, and what `rollback_graph` adds to it.
use caelix.Prelude.{
  ℕ, ◌≡◌, refl, sym, ap, subst, ◌∙◌, not, ◌&&◌, some, List, [], ◌∷◌, ◌++◌, if◌then◌else◌, All,
}
use mathlib.Core.List.{reverse_aux, append-nil}
use caelix.Errors.{Outcome, done, fail, panicked, out_of_fuel}
use caelix.Container.{ProviderValue, ProviderDef, Container}
use caelix.Graph.{ModuleGraph, def_by_type}
use caelix.Lifecycle.{
  Call, build, init, bootstrap, shutdown, World, Run, call, shut_down, rollback_each, past_error,
}

-- The types whose init hooks succeeded, but for those that an override built, in the order of the calls.
abbrev pub started_by : Call → List ℕ
started_by (build d s) = []
started_by (init overridden t ok) = if ok && not overridden then t ∷ [] else []
started_by (bootstrap t) = []
started_by (shutdown t) = []

abbrev pub stopped_by : Call → List ℕ
stopped_by (build d s) = []
stopped_by (init overridden t ok) = []
stopped_by (bootstrap t) = []
stopped_by (shutdown t) = t ∷ []

abbrev pub bootstrapped_by : Call → List ℕ
bootstrapped_by (build d s) = []
bootstrapped_by (init overridden t ok) = []
bootstrapped_by (bootstrap t) = t ∷ []
bootstrapped_by (shutdown t) = []

abbrev pub over_calls : (Call → List ℕ) → List Call → List ℕ
over_calls f [] = []
over_calls f (c ∷ cs) = f c ++ over_calls f cs

abbrev pub started : List Call → List ℕ
started = over_calls started_by

abbrev pub stopped : List Call → List ℕ
stopped = over_calls stopped_by

abbrev pub bootstrapped : List Call → List ℕ
bootstrapped = over_calls bootstrapped_by

pub append_assoc {ℓ} : {A : Type ℓ} (xs ys zs : List A) → (xs ++ ys) ++ zs ≡ xs ++ (ys ++ zs)
append_assoc [] ys zs = refl
append_assoc (x ∷ xs) ys zs = ap (λ l. x ∷ l) (append_assoc xs ys zs)

-- The last call of a trace.
pub over_calls-call :
    (f : Call → List ℕ) (cs : List Call) (c : Call)
    → over_calls f (cs ++ c ∷ []) ≡ over_calls f cs ++ f c
over_calls-call f [] c = append-nil (f c)
over_calls-call f (b ∷ cs) c =
    ap (λ l. f b ++ l) (over_calls-call f cs c) ∙ sym (append_assoc (f b) (over_calls f cs) (f c))

pub All-reverse_aux {κ} :
    (P : ℕ → Type κ) (xs ys : List ℕ) → All P xs → All P ys → All P (reverse_aux xs ys)
All-reverse_aux P [] ys h k = k
All-reverse_aux P (x ∷ xs) ys (p, h) k = All-reverse_aux P xs (x ∷ ys) h (p, k)

-- A provider whose shutdown hook can be called.
abbrev pub Available : ModuleGraph → Container → ℕ → Type 0
Available g c t =
    (d : ProviderDef) × (v : ProviderValue) × (def_by_type g t ≡ some d)
    × (d.type_id ≡ t)
    × (c.services t ≡ some v)

pub shut_down-call :
    (g : ModuleGraph) (t : ℕ) (w : World)
    → Available g w.container t
    → (shut_down g t w).1 ≡ call (shutdown t) w
unfolding shut_down
shut_down-call g t w (d, v, found, same, has_value) =
    let value : w.container.services d.type_id ≡ some v =
      ap w.container.services same ∙ has_value in
    rw (found, value, same)

abbrev pub Kept : World → World → Type 0
Kept w x =
    (x.container ≡ w.container)
    × (started x.calls ≡ started w.calls)
    × (bootstrapped x.calls ≡ bootstrapped w.calls)

-- The hooks of `ts` were called in turn behind `w`, up to one that panics.
abbrev pub Rolled : List ℕ → World → Run → Type 0
Rolled ts w (done u, x) = Kept w x × (stopped x.calls ≡ stopped w.calls ++ ts)
Rolled ts w (fail e, x) = ⊥
Rolled ts w (panicked, x) =
    Kept w x × ((rest : List ℕ) × (stopped x.calls ++ rest ≡ stopped w.calls ++ ts))
Rolled ts w (out_of_fuel, x) =
    Kept w x × ((rest : List ℕ) × (stopped x.calls ++ rest ≡ stopped w.calls ++ ts))

module _ (t : ℕ) (ts : List ℕ) (w : World) where
  Kept-call : (x : World) → Kept (call (shutdown t) w) x → Kept w x
  Kept-call x (c, i, b) = (
    c,
    i ∙ over_calls-call started_by w.calls (shutdown t) ∙ append-nil _,
    b ∙ over_calls-call bootstrapped_by w.calls (shutdown t) ∙ append-nil _,
  )

  pub stopped-call : stopped (call (shutdown t) w).calls ++ ts ≡ stopped w.calls ++ t ∷ ts
  stopped-call =
      ap (λ l. l ++ ts) (over_calls-call stopped_by w.calls (shutdown t))
      ∙ append_assoc (stopped w.calls) (t ∷ []) ts

  Rolled-call : (r : Run) → Rolled ts (call (shutdown t) w) r → Rolled (t ∷ ts) w r
  Rolled-call (done u, x) (k, s) = (Kept-call x k, s ∙ stopped-call)
  Rolled-call (fail e, x) h = h
  Rolled-call (panicked, x) (k, (rest, s)) = (Kept-call x k, (rest, s ∙ stopped-call))
  Rolled-call (out_of_fuel, x) (k, (rest, s)) = (Kept-call x k, (rest, s ∙ stopped-call))

  past_error-Rolled :
      (r : Outcome (Unit {0})) (k : World → Run)
      → Rolled ts (call (shutdown t) w) (k (call (shutdown t) w))
      → Rolled (t ∷ ts) w (past_error (r, call (shutdown t) w) k)
  past_error-Rolled (done u) k h = Rolled-call (k (call (shutdown t) w)) h
  past_error-Rolled (fail e) k h = Rolled-call (k (call (shutdown t) w)) h
  past_error-Rolled panicked k h =
      (Kept-call (call (shutdown t) w) (refl, refl, refl), (ts, stopped-call))
  past_error-Rolled out_of_fuel k h =
      (Kept-call (call (shutdown t) w) (refl, refl, refl), (ts, stopped-call))

-- What a rollback of available providers does: it calls their hooks in turn, up to one that panics,
-- and changes nothing else.
pub rollback_each-Rolled :
    (g : ModuleGraph) (ts : List ℕ) (w : World)
    → All (Available g w.container) ts
    → Rolled ts w (rollback_each g ts w)
unfolding rollback_each
rollback_each-Rolled g [] w h = ((refl, refl, refl), sym (append-nil _))
rollback_each-Rolled g (t ∷ ts) w (a, h) =
    subst (λ x. Rolled (t ∷ ts) w (past_error ((shut_down g t w).0, x) (rollback_each g ts)))
      (sym (shut_down-call g t w a))
      (past_error-Rolled t ts w (shut_down g t w).0 (rollback_each g ts)
        (rollback_each-Rolled g ts (call (shutdown t) w) h))
