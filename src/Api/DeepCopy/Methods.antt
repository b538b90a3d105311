-- ===== src/Api/DeepCopy/Methods.antt =====
-- api/v1alpha1/zz_generated.deepcopy.go: `DeepCopy` and `DeepCopyObject` of each type.
use minio_bucket_controller.Base.{Option, none, some}
use minio_bucket_controller.Api.Meta.{Condition}
use minio_bucket_controller.Api.Bucket.{BucketAccess}
use minio_bucket_controller.Api.Provider.{BucketProviderSpec, SecretRef}
use minio_bucket_controller.Api.Account.{BucketServiceAccountSpec}
use minio_bucket_controller.Api.DeepCopy.Memory.{
  StoredBucketSpec, StoredBucketStatus, StoredBucket, StoredProviderStatus, StoredProvider,
  StoredAccountStatus, StoredAccount, StoredList, Copy, pure, ◌>>=◌,
}
use minio_bucket_controller.Api.DeepCopy.Copies.{
  bucket_spec_into, bucket_status_into, provider_status_into, account_status_into, access_into,
  provider_spec_into, account_spec_into, secret_ref_into, bucket_into, provider_into, account_into,
  bucket_list_into, provider_list_into, account_list_into,
}

module _ {M S : Type 0} where
  -- `DeepCopy`: nil for nil, or a new struct that `DeepCopyInto` fills. A pointer to a struct is the
  -- struct.
  abbrev pub deep_copy : (S → Copy M S) → Option S → Copy M (Option S)
  deep_copy into none = pure none
  deep_copy into (some s) = do out ← into s; pure (some out)

  -- `DeepCopyObject`: an interface that is nil where the copy is.
  abbrev deep_copy_object : (S → Copy M S) → Option S → Copy M (Option S)
  deep_copy_object into o = do
    c ← deep_copy into o
    elim c [ none ↦ pure none | some c' ↦ pure (some c') ]

module _ {M : Type 0} where
  abbrev pub bucket_spec_copy : Option StoredBucketSpec → Copy M (Option StoredBucketSpec)
  bucket_spec_copy = deep_copy bucket_spec_into

  abbrev pub access_copy : Option BucketAccess → Copy M (Option BucketAccess)
  access_copy = deep_copy access_into

  abbrev pub provider_spec_copy : Option BucketProviderSpec → Copy M (Option BucketProviderSpec)
  provider_spec_copy = deep_copy provider_spec_into

  abbrev pub account_spec_copy :
      Option BucketServiceAccountSpec → Copy M (Option BucketServiceAccountSpec)
  account_spec_copy = deep_copy account_spec_into

  abbrev pub secret_ref_copy : Option SecretRef → Copy M (Option SecretRef)
  secret_ref_copy = deep_copy secret_ref_into

  module _ (copy_condition : Condition → Condition) where
    abbrev pub bucket_status_copy : Option StoredBucketStatus → Copy M (Option StoredBucketStatus)
    bucket_status_copy = deep_copy (bucket_status_into copy_condition)

    abbrev pub provider_status_copy :
        Option StoredProviderStatus → Copy M (Option StoredProviderStatus)
    provider_status_copy = deep_copy (provider_status_into copy_condition)

    abbrev pub account_status_copy :
        Option StoredAccountStatus → Copy M (Option StoredAccountStatus)
    account_status_copy = deep_copy (account_status_into copy_condition)

  module _ (copy_meta : M → Copy M M) (copy_condition : Condition → Condition) where
    abbrev pub bucket_copy : Option (StoredBucket M) → Copy M (Option (StoredBucket M))
    bucket_copy = deep_copy (bucket_into copy_meta copy_condition)

    abbrev pub bucket_object : Option (StoredBucket M) → Copy M (Option (StoredBucket M))
    bucket_object = deep_copy_object (bucket_into copy_meta copy_condition)

    abbrev pub provider_copy : Option (StoredProvider M) → Copy M (Option (StoredProvider M))
    provider_copy = deep_copy (provider_into copy_meta copy_condition)

    abbrev pub provider_object : Option (StoredProvider M) → Copy M (Option (StoredProvider M))
    provider_object = deep_copy_object (provider_into copy_meta copy_condition)

    abbrev pub account_copy : Option (StoredAccount M) → Copy M (Option (StoredAccount M))
    account_copy = deep_copy (account_into copy_meta copy_condition)

    abbrev pub account_object : Option (StoredAccount M) → Copy M (Option (StoredAccount M))
    account_object = deep_copy_object (account_into copy_meta copy_condition)

    module _ {L : Type 0} (copy_list_meta : L → Copy M L) where
      abbrev pub bucket_list_copy : Option (StoredList L) → Copy M (Option (StoredList L))
      bucket_list_copy = deep_copy (bucket_list_into copy_meta copy_condition copy_list_meta)

      abbrev pub bucket_list_object : Option (StoredList L) → Copy M (Option (StoredList L))
      bucket_list_object =
          deep_copy_object (bucket_list_into copy_meta copy_condition copy_list_meta)

      abbrev pub provider_list_copy : Option (StoredList L) → Copy M (Option (StoredList L))
      provider_list_copy = deep_copy (provider_list_into copy_meta copy_condition copy_list_meta)

      abbrev pub provider_list_object : Option (StoredList L) → Copy M (Option (StoredList L))
      provider_list_object =
          deep_copy_object (provider_list_into copy_meta copy_condition copy_list_meta)

      abbrev pub account_list_copy : Option (StoredList L) → Copy M (Option (StoredList L))
      account_list_copy = deep_copy (account_list_into copy_meta copy_condition copy_list_meta)

      abbrev pub account_list_object : Option (StoredList L) → Copy M (Option (StoredList L))
      account_list_object =
          deep_copy_object (account_list_into copy_meta copy_condition copy_list_meta)
