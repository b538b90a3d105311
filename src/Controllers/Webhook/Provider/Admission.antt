-- ===== src/Controllers/Webhook/Provider/Admission.antt =====
-- controllers/bucketprovider_webhook.go: the admission of a provider.
use minio_bucket_controller.Base.{
  String, ◌≡◌, ◌==◌, not, false, true, starts_with, ◌⊎◌, [], ◌∷◌, Option, none, some, arith, Bool,
}
use minio_bucket_controller.Base.Dict.{lookup}
use minio_bucket_controller.Errors.{ok}
use minio_bucket_controller.Api.Provider.{BucketProvider, SecretRef}
use minio_bucket_controller.Api.Object.{Object, provider}
use minio_bucket_controller.Libraries.{Libraries}
use minio_bucket_controller.Program.{Call, get_secret, list_providers}
use minio_bucket_controller.Program.Contract.{History, Contract, Meets}
use minio_bucket_controller.Controllers.Provider.{default_provider, first_default}
use minio_bucket_controller.Controllers.Webhook.{Denial}
use minio_bucket_controller.Controllers.Webhook.Provider.{
  validate_create, validate_update, validate, validate_spec,
}

-- A text that is there and not empty.
abbrev pub is_filled : Option String → Bool
is_filled none = false
is_filled (some v) = not (v == "")

-- The server replied a secret under the reference's name, with a text under its key.
abbrev pub KeyFound : SecretRef → History → Type 0
KeyFound ref [] = ⊥
KeyFound ref ((get_secret k, ok s) ∷ h) =
    ((k.name ≡ ref.name)
      × (k.namespace ≡ ref.namespace)
      × (is_filled (lookup ref.key s.contents) ≡ true))
    ⊎ KeyFound ref h
KeyFound ref ((c, r) ∷ h) = KeyFound ref h

-- Whether a default that was found has this name.
abbrev pub names_default : String → Option BucketProvider → Bool
names_default name none = true
names_default name (some d) = d.metadata.name == name

-- The first of the listed providers that is a default, if there is one, has this name.
abbrev pub DefaultIs : String → History → Type 0
DefaultIs name [] = ⊥
DefaultIs name ((list_providers, ok ps) ∷ h) =
    (names_default name (first_default ps) ≡ true) ⊎ DefaultIs name h
DefaultIs name ((c, r) ∷ h) = DefaultIs name h

-- What holds of a provider that was admitted.
abbrev pub Admitted : BucketProvider → History → Option Denial → Type 0
Admitted p h none =
    ((p.spec.endpoint == "") ≡ false)
    × (starts_with p.spec.endpoint "http://" ≡ false)
    × (starts_with p.spec.endpoint "https://" ≡ false)
    × DefaultIs p.metadata.name h
    × KeyFound p.spec.access_key h
    × KeyFound p.spec.secret_key h
Admitted p h (some d) = Unit

abbrev pub IsRead : Call → Type 0
IsRead list_providers = Unit
IsRead (get_secret k) = Unit
IsRead c = ⊥

abbrev pub contract : BucketProvider → Contract (Option Denial)
contract p = record { may_call = λ h c. IsRead c; may_return = Admitted p; may_halt = λ h. ⊥ }

module _ (lib : Libraries) where
  validate_spec-admitted :
      (p : BucketProvider) (h : History)
      → DefaultIs p.metadata.name h
      → Meets (contract p) h (validate_spec lib p)
  unfolding validate_spec
  validate_spec-admitted p h sole = ground arith

  -- A new provider is admitted only if its endpoint is not empty and starts with neither `http://` nor `https://`, no provider of
  -- another name is the first default in the list that the server replied, and the server replied
  -- for both references a secret that has a text under the key. The webhook only reads.
  pub validate_create-admitted :
      (p : BucketProvider) → Meets (contract p) [] (validate_create lib (provider p))
  unfolding validate_create validate default_provider
  validate_create-admitted p = grind (arith, validate_spec-admitted)

  -- An update of a provider is admitted only if the old object, whatever the new one is, has an
  -- endpoint that is not empty and starts with neither `http://` nor `https://`, no provider of
  -- another name than the old one's is the first default in the list that the server replied, and
  -- the server replied for both references of the old one a secret that has a text under the key.
  -- The webhook only reads.
  pub validate_update-contract :
      (p : BucketProvider) (n : Object) → Meets (contract p) [] (validate_update lib (provider p) n)
  unfolding validate_update validate default_provider
  validate_update-contract p n = grind (arith, validate_spec-admitted)
