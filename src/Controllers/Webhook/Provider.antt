-- ===== src/Controllers/Webhook/Provider.antt =====
-- controllers/bucketprovider_webhook.go
pub mod Admission
use minio_bucket_controller.Base.{
  String, ◌==◌, starts_with, not, ◌||◌, [], ◌∷◌, Option, none, some, if◌then◌else◌,
}
use minio_bucket_controller.Errors.{ok, err, new, is_not_found, is_key_not_found}
use minio_bucket_controller.Api.Provider.{BucketProvider, SecretRef, default_provider_annotation}
use minio_bucket_controller.Api.Object.{Object, provider}
use minio_bucket_controller.Libraries.{Libraries}
use minio_bucket_controller.Program.{Program, halt, ask, ◌>>=◌, list_buckets}
use minio_bucket_controller.Controllers.SecretRef.{fetch_secret_ref}
use minio_bucket_controller.Controllers.Provider.{default_provider}
use minio_bucket_controller.Controllers.Webhook.{
  Denial, error, invalid, text, reference, admit, deny,
}

-- The two fields of the spec that refer to a secret: their name in the path, and in the texts.
pub record SecretField : Type 0 where
  pub path : String
  pub fetch_failed : String
  pub empty : String

abbrev pub access_key_field : SecretField
access_key_field = record {
  path = "accessKey";
  fetch_failed = "unable to fetch access key from secret reference";
  empty = "access key cannot be empty";
}

abbrev pub secret_key_field : SecretField
secret_key_field = record {
  path = "secretKey";
  fetch_failed = "unable to fetch secret key from secret reference";
  empty = "secret key cannot be empty";
}

module _ (lib : Libraries) where
  -- The check of one of them.
  unfoldable pub validate_secret_ref : SecretField → SecretRef → Program (Option Denial)
  unfolding fetch_secret_ref
  validate_secret_ref f ref = do
    r ← fetch_secret_ref lib (some ref)
    elim r [
      | err e ↦
          if is_not_found e
          then deny (invalid ("spec" ∷ f.path ∷ "name" ∷ []) (text ref.name) "secret not found")
          else if is_key_not_found e
          then deny
              (invalid ("spec" ∷ f.path ∷ "key" ∷ []) (text ref.key) "key not found in secret")
          else deny (error (new f.fetch_failed))
      | ok key ↦
          if key == "" then deny (invalid ("spec" ∷ f.path ∷ []) (reference ref) f.empty) else admit
    ]

  -- `validate` after the check on the default provider
  unfoldable pub validate_spec : BucketProvider → Program (Option Denial)
  unfolding validate_secret_ref
  validate_spec p =
      if p.spec.endpoint == ""
      then deny
          (invalid ("spec" ∷ "endpoint" ∷ []) (text p.spec.endpoint) "endpoint cannot be empty")
      else if starts_with p.spec.endpoint "http://" || starts_with p.spec.endpoint "https://"
      then deny (
          invalid ("spec" ∷ "endpoint" ∷ []) (text p.spec.endpoint)
            "endpoint must not contain http:// or https:// prefix")
      else (do
        denied ← validate_secret_ref access_key_field p.spec.access_key
        elim denied [
          | some d ↦ deny d
          | none ↦ validate_secret_ref secret_key_field p.spec.secret_key
        ])

  -- `validate`
  unfoldable pub validate : BucketProvider → Program (Option Denial)
  unfolding default_provider validate_spec
  validate p = do
    found ← default_provider
    elim found [
      | err e ↦ deny (error e)
      | ok none ↦ validate_spec p
      | ok (some d) ↦
          if not (d.metadata.name == p.metadata.name)
          then deny (
              invalid ("metadata" ∷ "annotations" ∷ default_provider_annotation ∷ [])
                (text p.metadata.name) "only one default bucket provider is allowed")
          else validate_spec p
    ]

  -- `ValidateCreate`, which panics on another type
  unfoldable pub validate_create : Object → Program (Option Denial)
  unfolding validate
  validate_create (provider p) = validate p
  validate_create o = halt

  -- `ValidateUpdate`, which names its first argument `o` and its second `_`
  unfoldable pub validate_update : Object → Object → Program (Option Denial)
  unfolding validate
  validate_update (provider p) n = validate p
  validate_update o n = halt

-- `ValidateDelete`
unfoldable pub validate_delete : Object → Program (Option Denial)
validate_delete (provider p) = do
  r ← ask (list_buckets "metadata.name" p.metadata.name)
  elim r [
    | err e ↦ deny (error e)
    | ok [] ↦ admit
    | ok (b ∷ bs) ↦ deny (
        invalid ("metadata" ∷ "name" ∷ []) (text p.metadata.name)
          "cannot delete bucket provider while buckets are still referencing it")
  ]
validate_delete o = halt
