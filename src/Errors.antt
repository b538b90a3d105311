-- ===== src/Errors.antt =====
-- Go's error values, and results that carry one. An error of the API server, of MinIO or of another
-- library is known by what the program asks of it: whether `apierrors.IsNotFound` holds, the code
-- that `madmin.ToErrorResponse` reads, and its text.
use minio_bucket_controller.Base.{
  String, ◌≡◌, refl, ◌⊎◌, inl, inr, Bool, true, false, ◌||◌, Option, none, some,
}

pub record ExternalError : Type 0 where
  pub not_found : Bool
  pub code : String
  pub text : String

pub data Error : Type 0 where
  external : ExternalError → Error
  -- `errors.New`, and `fmt.Errorf` with no `%w`
  new : String → Error
  -- `fmt.Errorf("text: %w", err)`
  wrap : String → Error → Error
  -- `multierr.Combine` of two errors that are there
  combine : Error → Error → Error
  -- controllers/secret_ref.go: `ErrKeyNotFound`
  key_not_found : Error

pub data Result {ℓ} (A : Type ℓ) : Type ℓ where
  ok : A → Result A
  err : Error → Result A

pub Result-cases {ℓ} :
    {A : Type ℓ} (r : Result A) → ((e : Error) × (r ≡ err e)) ⊎ ((a : A) × (r ≡ ok a))
Result-cases (ok a) = inr (a, refl)
Result-cases (err e) = inl (e, refl)

-- `apierrors.IsNotFound`, which follows the wrapped errors.
abbrev pub is_not_found : Error → Bool
is_not_found (external e) = e.not_found
is_not_found (new s) = false
is_not_found (wrap s e) = is_not_found e
is_not_found (combine e f) = is_not_found e || is_not_found f
is_not_found key_not_found = false

-- `client.IgnoreNotFound`
abbrev pub ignore_not_found : Error → Option Error
ignore_not_found e = elim (is_not_found e) [ true ↦ none | false ↦ some e ]

-- `errors.Is(err, ErrKeyNotFound)`
abbrev pub is_key_not_found : Error → Bool
is_key_not_found (external e) = false
is_key_not_found (new s) = false
is_key_not_found (wrap s e) = is_key_not_found e
is_key_not_found (combine e f) = is_key_not_found e || is_key_not_found f
is_key_not_found key_not_found = true

-- `madmin.ToErrorResponse(err).Code`, for an error as the client returned it.
abbrev pub error_code : Error → String
error_code (external e) = e.code
error_code (new s) = ""
error_code (wrap s e) = ""
error_code (combine e f) = ""
error_code key_not_found = ""

-- `multierr.Combine(err, more)`, where `more` is the result of a call.
abbrev pub combine_result {ℓ} : {A : Type ℓ} → Error → Result A → Error
combine_result e (ok a) = e
combine_result e (err f) = combine e f
