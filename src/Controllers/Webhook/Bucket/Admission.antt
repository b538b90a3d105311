-- ===== src/Controllers/Webhook/Bucket/Admission.antt =====
-- controllers/bucket_webhook.go: the admission of an update of a bucket.
use minio_bucket_controller.Base.{String, ◌≡◌, eq_iff, ◌⊎◌, [], ◌∷◌, Option, none, some, arith}
use minio_bucket_controller.Errors.{ok}
use minio_bucket_controller.Api.Bucket.{Bucket}
use minio_bucket_controller.Api.Object.{bucket}
use minio_bucket_controller.Libraries.{Libraries}
use minio_bucket_controller.Program.{Call, get_provider}
use minio_bucket_controller.Program.Contract.{History, Contract, Meets}
use minio_bucket_controller.Controllers.Webhook.{Denial}
use minio_bucket_controller.Controllers.Webhook.Bucket.{validate_update, validate_template}

-- The run was replied that the provider of this name is there.
abbrev pub ProviderFound : String → History → Type 0
ProviderFound name [] = ⊥
ProviderFound name ((get_provider k, ok p) ∷ h) = (k.name ≡ name) ⊎ ProviderFound name h
ProviderFound name ((c, r) ∷ h) = ProviderFound name h

abbrev pub IsLookup : Call → Type 0
IsLookup (get_provider k) = Unit
IsLookup c = ⊥

module _ (lib : Libraries) where
  -- What holds of a bucket that was changed from `old`, where the change was admitted.
  abbrev pub Admitted : Bucket → Bucket → History → Option Denial → Type 0
  Admitted old b h none =
      ((old.spec.provider ≡ "") ⊎ (old.spec.provider ≡ b.spec.provider))
      × ProviderFound b.spec.provider h
      × (validate_template lib b.spec.secret_template ≡ none)
  Admitted old b h (some d) = Unit

  abbrev pub change_contract : Bucket → Bucket → Contract (Option Denial)
  change_contract old b = record {
    may_call = λ h c. IsLookup c;
    may_return = Admitted old b;
    may_halt = λ h. ⊥;
  }

  -- The update of a bucket is admitted only if its provider was empty or stays the same, the server
  -- replied in this run that the provider is there, and the templates pass. The webhook only looks
  -- up providers.
  pub validate_update-admitted :
      (old b : Bucket)
      → Meets (change_contract old b) [] (validate_update lib (bucket old) (bucket b))
  unfolding validate_update
  validate_update-admitted old b =
      ground (arith, eq_iff old.spec.provider "", eq_iff old.spec.provider b.spec.provider)
