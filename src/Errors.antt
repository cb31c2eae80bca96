-- ===== src/Errors.antt =====
-- backend/app/core/errors.py: the errors that the services raise, by class, and the result of a call
-- that may raise one. Messages for people are left out, but for those that a row keeps.
use core_desappsii.Base.{ℕ, Bool, true, false, ◌≡◌, refl, ◌⊎◌, inl, inr}

-- `AttributeError` and the errors of pydantic and jsonschema are no `AppError`; the handlers answer them
-- with 500.
pub data Error : Type 0 where
  not_found conflict validation schema_violation forbidden : Error
  unauthorized token_invalid : Error
  invalid_credentials account_inactive module_inactive : Error
  external_unavailable : Error
  attribute_error pydantic_error schema_error : Error

-- The status codes of the classes, and that of the last handler.
abbrev pub status_code : Error → ℕ
status_code not_found = 404
status_code conflict = 409
status_code validation = 422
status_code schema_violation = 422
status_code forbidden = 403
status_code unauthorized = 401
status_code token_invalid = 401
status_code invalid_credentials = 401
status_code account_inactive = 403
status_code module_inactive = 403
status_code external_unavailable = 503
status_code attribute_error = 500
status_code pydantic_error = 500
status_code schema_error = 500

-- What a call returns: its value, or the error that it raises.
pub data Result {ℓ} (A : Type ℓ) : Type ℓ where
  err : Error → Result A
  ok : A → Result A

abbrev pub is_ok {ℓ} : {A : Type ℓ} → Result A → Bool
is_ok (err e) = false
is_ok (ok a) = true

pub Result-cases {ℓ} :
    {A : Type ℓ} (r : Result A)
    → ((a : A) × ◌≡◌ {A = Result A} r (ok a)) ⊎ ((e : Error) × ◌≡◌ {A = Result A} r (err e))
Result-cases (err e) = inr (e, refl)
Result-cases (ok a) = inl (a, refl)
