-- ===== src/Errors.antt =====
-- packages/platform-core/src/platform_core/errors.py: the domain errors with their HTTP status
-- and code, and the result of an operation that may raise one.
use soomsuite_agent.Prelude.{
  ℕ, ◌≡◌, refl, ◌⊎◌, inl, inr, String, str_eq, Bool, true, false, Option, none, some, if◌then◌else◌,
}

-- The subclasses of `PlatformError`, each with the arguments of its constructor. No message
-- (`None`) is the empty text; the two classes with an argument of their own take no message.
pub data PlatformError : Type 0 where
  bad_request not_found unauthenticated forbidden conflict validation_failed upstream_unavailable
        payload_too_large :
      (message : String) → PlatformError
  rate_limited : (retry_after : ℕ) → PlatformError
  approval_required : (approval_id : String) → PlatformError

unfoldable pub status_code : PlatformError → ℕ
status_code (bad_request m) = 400
status_code (not_found m) = 404
status_code (unauthenticated m) = 401
status_code (forbidden m) = 403
status_code (conflict m) = 409
status_code (validation_failed m) = 422
status_code (rate_limited n) = 429
status_code (approval_required i) = 202
status_code (upstream_unavailable m) = 503
status_code (payload_too_large m) = 413

unfoldable pub public_message : PlatformError → String
public_message (bad_request m) = "The request could not be processed."
public_message (not_found m) = "Resource not found."
public_message (unauthenticated m) = "Authentication required."
public_message (forbidden m) = "Permission denied."
public_message (conflict m) = "The request conflicts with the current state."
public_message (validation_failed m) = "The request is invalid."
public_message (rate_limited n) = "Too many requests."
public_message (approval_required i) = "Human approval is required before this action can run."
public_message (upstream_unavailable m) = "A dependent service is temporarily unavailable."
public_message (payload_too_large m) = "Request body too large."

abbrev given : PlatformError → String
given (bad_request m) = m
given (not_found m) = m
given (unauthenticated m) = m
given (forbidden m) = m
given (conflict m) = m
given (validation_failed m) = m
given (upstream_unavailable m) = m
given (payload_too_large m) = m
given _ = ""

-- `self.message = message or self.public_message`
unfoldable pub message : PlatformError → String
unfolding public_message
message e = if str_eq (given e) "" then public_message e else given e

pub data Result {ℓ} (A : Type ℓ) : Type ℓ where
  ok : A → Result A
  err : PlatformError → Result A

-- `if c: raise e`
abbrev pub raise_if : Bool → PlatformError → Result (Unit {0})
raise_if true e = err e
raise_if false e = ok tt

abbrev pub or_raise {ℓ} : {A : Type ℓ} → Option A → PlatformError → Result A
or_raise none e = err e
or_raise (some a) e = ok a

infixl 5 ◌>>=◌ ◌>>◌
-- The statements after one that may raise.
abbrev pub ◌>>=◌ : {A B : Type 0} → Result A → (A → Result B) → Result B
m >>= next = elim m [ ok a ↦ next a | err e ↦ err e ]

abbrev pub ◌>>◌ : {B : Type 0} → Result (Unit {0}) → Result B → Result B
m >> rest = elim m [ ok _ ↦ rest | err e ↦ err e ]

abbrev pub is_ok {ℓ} : {A : Type ℓ} → Result A → Bool
is_ok (ok _) = true
is_ok (err _) = false

pub Result-cases {ℓ} :
    {A : Type ℓ} (r : Result A) → ((a : A) × (r ≡ ok a)) ⊎ ((e : PlatformError) × (r ≡ err e))
Result-cases (ok a) = inl (a, refl)
Result-cases (err e) = inr (e, refl)
