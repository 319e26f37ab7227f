-- ===== src/Errors.antt =====
-- crates/caelix-core/src/exception.rs: the exceptions of the framework, and the result of a
-- computation that may fail.
-- The text of an error is a value of `Message`, one constructor for each `format!` of the source with
-- the names that the source puts in; `text` is a fixed text, or what user code passes. The field
-- errors and the source of an exception, which no modelled code reads, are left out.
use caelix.Prelude.{ℕ, String, ◌≡◌, refl, Bool, true, false, Option, none, some, List}

pub data Message : Type 0 where
  text : String → Message
  circular_import : List String → Message
  duplicate_provider : (provider first second : String) → Message
  cannot_export : (module_name export : String) → Message
  not_visible : (provider dependency module_name : String) → Message
  missing_dependency : (provider dependency : String) → Message
  missing_handler_provider : String → Message
  no_event_bus : String → Message
  invalid_subject : (subject module_name : String) → Message
  shared_subject : (subject first second : String) → Message
  duplicate_subject : (subject first second : String) → Message
  command_overlaps_event : (command event : String) → Message
  event_overlap : (first second : String) → Message
  provider_cycle : List String → Message
  undeclared_resolve : (provider dependency : String) → Message
  not_registered : String → Message
  wrong_type : String → Message
  missing_at_startup : String → Message
  missing_during : (hook provider : String) → Message
  hook_failed : (hook provider error : String) → Message → Message
  unused_overrides : List String → Message
  bad_gateway_path : String → Message
  duplicate_gateway_path : String → Message
  cache_value_too_large : ℕ → Message

pub record HttpException : Type 0 where
  pub status : ℕ
  pub error : String
  pub message : Message

abbrev pub startup_error : Message → HttpException
startup_error m = record { status = 500; error = "Internal Server Error"; message = m }

-- `done` and `fail` are Rust's `Ok` and `Err`. `panicked` is an index out of bounds or a panic of user
-- code, and `out_of_fuel` a recursion that was cut off.
pub data Outcome {ℓ} (A : Type ℓ) : Type ℓ where
  done : A → Outcome A
  fail : HttpException → Outcome A
  panicked : Outcome A
  out_of_fuel : Outcome A

infixl 5 ◌>>=◌ ◌>>◌
abbrev pub ◌>>=◌ {ℓ κ} : {A : Type ℓ} {B : Type κ} → Outcome A → (A → Outcome B) → Outcome B
done a >>= f = f a
fail e >>= f = fail e
panicked >>= f = panicked
out_of_fuel >>= f = out_of_fuel

abbrev pub ◌>>◌ {ℓ} : {B : Type ℓ} → Outcome (Unit {0}) → Outcome B → Outcome B
m >> k = m >>= λ _. k

-- Early returns: an error if the test passes.
abbrev pub fail_if : Bool → Message → Outcome (Unit {0})
fail_if true m = fail (startup_error m)
fail_if false m = done tt

-- An index that the source takes unchecked.
abbrev pub at_index {ℓ} : {A : Type ℓ} → Option A → Outcome A
at_index none = panicked
at_index (some a) = done a

-- The computation returned, by `Ok` or by `Err`.
abbrev pub Returns {ℓ} : {A : Type ℓ} → Outcome A → Type 0
Returns (done a) = Unit
Returns (fail e) = Unit
Returns panicked = ⊥
Returns out_of_fuel = ⊥

pub Returns-bind {ℓ κ} :
    {A : Type ℓ} {B : Type κ} (m : Outcome A) (f : A → Outcome B)
    → Returns m
    → ((a : A) → m ≡ done a → Returns (f a))
    → Returns (m >>= f)
Returns-bind (done a) f r k = k a refl
Returns-bind (fail e) f r k = tt
Returns-bind panicked f r k = r
Returns-bind out_of_fuel f r k = r

pub Returns-then {ℓ} :
    {B : Type ℓ} (m : Outcome (Unit {0})) (k : Outcome B) → Returns m → Returns k → Returns (m >> k)
Returns-then m k h i = Returns-bind m (λ _. k) h (λ u e. i)

-- Inversion of a bind that succeeds.
pub >>=-eq-done {ℓ κ} :
    {A : Type ℓ} {B : Type κ} (m : Outcome A) (f : A → Outcome B) {b : B}
    → (m >>= f) ≡ done b
    → (a : A) × (m ≡ done a) × (f a ≡ done b)
>>=-eq-done (done a) f h = (a, refl, h)
>>=-eq-done (fail e) f h = cc
>>=-eq-done panicked f h = cc
>>=-eq-done out_of_fuel f h = cc

pub fail_if-eq-done : (b : Bool) (m : Message) {u : Unit {0}} → fail_if b m ≡ done u → b ≡ false
fail_if-eq-done true m h = cc
fail_if-eq-done false m h = refl

pub fail_if-Returns : (b : Bool) (m : Message) → Returns (fail_if b m)
fail_if-Returns true m = tt
fail_if-Returns false m = tt
