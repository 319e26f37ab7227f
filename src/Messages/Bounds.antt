-- ===== src/Messages/Bounds.antt =====
-- crates/caelix-microservices/src/lib.rs: what an encoded response is, and how long.
use caelix.Prelude.{
  ℕ, ◌≤◌, String, ◌≡◌, refl, subst, ◌⊎◌, inl, inr, false, length, ltb, arith, Bool-cases,
}
use caelix.Errors.{HttpException, text}
use caelix.Messages.{
  Bytes, ResponseEnvelope, ResponseBody, error, Encoded, bytes, refused, limited, encode_limited,
  or_bounded, plain_error, response, bounded_command_error, encode_response, remote_from_exception,
  into_remote, is_client_error,
}

pub limited-eq :
    (maximum : ℕ) (x : Encoded) (b : Bytes)
    → limited maximum x ≡ bytes b
    → (x ≡ bytes b) × (length b ≤ maximum)
limited-eq maximum (refused m) b e = cc e
limited-eq maximum (bytes c) b e = elim (Bool-cases (ltb maximum (length c))) [
  | inl large ↦ cc (rw large at e)
  | inr small ↦
      let same : bytes c ≡ bytes b = rw small at e in
      let fits : length c ≤ maximum = ground arith in
      let bytes_same : c ≡ b = cc same in (same, subst (λ x. length x ≤ maximum) bytes_same fits)
]

-- What fits is not changed.
pub limited-fits :
    (maximum : ℕ) (x : Encoded) (b : Bytes)
    → x ≡ bytes b
    → length b ≤ maximum
    → limited maximum x ≡ bytes b
limited-fits maximum x b e fits =
    let small : ltb maximum (length b) ≡ false = ground arith in rw (e, small) refl

-- The bytes of a response with this correlation id, which fit.
abbrev pub IsResponse : (ResponseEnvelope → Encoded) → String → ℕ → Bytes → Type 0
IsResponse to_vec correlation_id maximum b =
    ((body : ResponseBody) × (to_vec (response correlation_id body) ≡ bytes b))
    × (length b ≤ maximum)

pub bounded_command_error-IsResponse :
    (to_vec : ResponseEnvelope → Encoded) (correlation_id code message : String) (maximum : ℕ)
    (b : Bytes)
    → bounded_command_error to_vec correlation_id code message maximum ≡ bytes b
    → IsResponse to_vec correlation_id maximum b
unfolding bounded_command_error encode_limited
bounded_command_error-IsResponse to_vec correlation_id code message maximum b e =
    let (same, fits) = limited-eq maximum _ b e in ((error (plain_error code message), same), fits)

or_bounded-cases :
    (x y : Encoded) (b : Bytes) → or_bounded x y ≡ bytes b → (x ≡ bytes b) ⊎ (y ≡ bytes b)
or_bounded-cases (bytes c) y b e = inl e
or_bounded-cases (refused m) y b e = inr e

pub encode_response-IsResponse :
    (to_vec : ResponseEnvelope → Encoded) (correlation_id : String) (body : ResponseBody)
    (maximum : ℕ) (b : Bytes)
    → encode_response to_vec correlation_id body maximum ≡ bytes b
    → IsResponse to_vec correlation_id maximum b
unfolding encode_response encode_limited
encode_response-IsResponse to_vec correlation_id body maximum b e =
    elim (or_bounded-cases (limited maximum (to_vec (response correlation_id body))) _ b e) [
      | inl first ↦ let (same, fits) = limited-eq maximum _ b first in ((body, same), fits)
      | inr second ↦
          bounded_command_error-IsResponse to_vec correlation_id "Protocol"
            "response envelope exceeds configured maximum" maximum b second
    ]

-- A response that fits is sent as it is.
pub encode_response-fits :
    (to_vec : ResponseEnvelope → Encoded) (correlation_id : String) (body : ResponseBody)
    (maximum : ℕ) (b : Bytes)
    → to_vec (response correlation_id body) ≡ bytes b
    → length b ≤ maximum
    → encode_response to_vec correlation_id body maximum ≡ bytes b
unfolding encode_response encode_limited
encode_response-fits to_vec correlation_id body maximum b e fits =
    rw (limited-fits maximum (to_vec (response correlation_id body)) b e fits) refl

-- What a client learns of an exception that is no client error, whatever its message is: its code,
-- and a fixed message.
pub remote_from_exception-hides :
    (e : HttpException)
    → is_client_error e.status ≡ false
    → (into_remote (remote_from_exception e)).message ≡ text "Internal Server Error"
unfolding remote_from_exception
remote_from_exception-hides e h = rw h refl
