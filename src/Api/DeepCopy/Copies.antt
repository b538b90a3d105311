-- ===== src/Api/DeepCopy/Copies.antt =====
-- api/v1alpha1/zz_generated.deepcopy.go: the methods. `DeepCopyInto` returns what it writes into its
-- argument; a shallow copy is the struct itself. The elements of a new slice are copied before the
-- slice has its address. The copies of metav1.ObjectMeta, metav1.ListMeta and metav1.Condition are not
-- of the repository.
use minio_bucket_controller.Base.{ℕ, String, List, [], ◌∷◌, Option, none, some, map}
use minio_bucket_controller.Base.Dict.{Dict, insert}
use minio_bucket_controller.Api.Meta.{Condition}
use minio_bucket_controller.Api.Bucket.{BucketAccess}
use minio_bucket_controller.Api.Provider.{BucketProviderSpec, SecretRef}
use minio_bucket_controller.Api.Account.{BucketServiceAccountSpec}
use minio_bucket_controller.Api.DeepCopy.Memory.{
  StoredBucketSpec, StoredBucketStatus, StoredBucket, StoredProviderStatus, StoredProvider,
  StoredAccountStatus, StoredAccount, StoredList, Cell, text_cell, map_cell, conditions_cell,
  buckets_cell, providers_cell, accounts_cell, load, Copy, pure, ◌>>=◌, new,
}
use minio_bucket_controller.Api.DeepCopy.View.{
  text_of, map_of, conditions_of, buckets_of, providers_of, accounts_of,
}

-- `for key, val := range *in { (*out)[key] = val }`
abbrev pub fill : Dict String → Dict String → Dict String
fill out [] = out
fill out ((key, val) ∷ d) = fill (insert key val out) d

module _ {M : Type 0} where
  -- What stands at an address; a panic where it cannot be read.
  abbrev pub fetch : {A : Type 0} → (Option (Cell M) → Option A) → ℕ → Copy M A
  fetch of a m = elim (of (load m a)) [ none ↦ none | some x ↦ some (x, m) ]

  -- `if in.X != nil { ... }`, with what stands at the address.
  abbrev pub unless_nil :
      {A : Type 0}
      → (Option (Cell M) → Option A)
      → (A → Copy M (Cell M))
      → Option ℕ
      → Copy M (Option ℕ)
  unless_nil of copy none = pure none
  unless_nil of copy (some a) = do x ← fetch of a; c ← copy x; a' ← new c; pure (some a')

  abbrev pub copy_text : Option ℕ → Copy M (Option ℕ)
  copy_text = unless_nil text_of λ s. pure (text_cell s)

  abbrev pub copy_map : Option ℕ → Copy M (Option ℕ)
  copy_map = unless_nil map_of λ d. pure (map_cell (fill [] d))

  abbrev pub copy_conditions : (Condition → Condition) → Option ℕ → Copy M (Option ℕ)
  copy_conditions copy_condition =
      unless_nil conditions_of λ cs. pure (conditions_cell (map copy_condition cs))

  -- The loop over the elements of a slice.
  abbrev pub copy_each : {S : Type 0} → (S → Copy M S) → List S → Copy M (List S)
  copy_each copy [] = pure []
  copy_each copy (s ∷ ss) = do s' ← copy s; ss' ← copy_each copy ss; pure (s' ∷ ss')

  -- The items of a list, a slice in a cell of its own.
  abbrev pub copy_items :
      {S : Type 0}
      → (Option (Cell M) → Option (List S))
      → (List S → Cell M)
      → (S → Copy M S)
      → Option ℕ
      → Copy M (Option ℕ)
  copy_items of cell copy = unless_nil of λ ss. do ss' ← copy_each copy ss; pure (cell ss')

  -- BucketSpec and BucketStatus
  abbrev pub bucket_spec_into : StoredBucketSpec → Copy M StoredBucketSpec
  bucket_spec_into s = do
    secret_name ← copy_text s.secret_name
    secret_template ← copy_map s.secret_template
    pure (record s { secret_name = secret_name; secret_template = secret_template })

  abbrev pub bucket_status_into :
      (Condition → Condition) → StoredBucketStatus → Copy M StoredBucketStatus
  bucket_status_into copy_condition s = do
    endpoint ← copy_text s.endpoint
    secret_name ← copy_text s.secret_name
    conditions ← copy_conditions copy_condition s.conditions
    pure (record s { endpoint = endpoint; secret_name = secret_name; conditions = conditions })

  -- BucketProviderStatus and BucketServiceAccountStatus
  abbrev pub provider_status_into :
      (Condition → Condition) → StoredProviderStatus → Copy M StoredProviderStatus
  provider_status_into copy_condition s = do
    conditions ← copy_conditions copy_condition s.conditions
    pure (record s { conditions = conditions })

  abbrev pub account_status_into :
      (Condition → Condition) → StoredAccountStatus → Copy M StoredAccountStatus
  account_status_into copy_condition s = do
    secret_name ← copy_text s.secret_name
    conditions ← copy_conditions copy_condition s.conditions
    pure (record s { secret_name = secret_name; conditions = conditions })

  -- BucketAccess, BucketProviderSpec, BucketServiceAccountSpec and SecretRef have no pointers.
  abbrev pub access_into : BucketAccess → Copy M BucketAccess
  access_into a = pure a

  abbrev pub provider_spec_into : BucketProviderSpec → Copy M BucketProviderSpec
  provider_spec_into s = pure (record s { access_key = s.access_key; secret_key = s.secret_key })

  abbrev pub account_spec_into : BucketServiceAccountSpec → Copy M BucketServiceAccountSpec
  account_spec_into s = pure s

  abbrev pub secret_ref_into : SecretRef → Copy M SecretRef
  secret_ref_into r = pure r

  module _ (copy_meta : M → Copy M M) (copy_condition : Condition → Condition) where
    -- Bucket, BucketProvider and BucketServiceAccount
    abbrev pub bucket_into : StoredBucket M → Copy M (StoredBucket M)
    bucket_into b = do
      metadata ← copy_meta b.metadata
      spec ← bucket_spec_into b.spec
      status ← bucket_status_into copy_condition b.status
      pure (record { metadata = metadata; spec = spec; status = status })

    abbrev pub provider_into : StoredProvider M → Copy M (StoredProvider M)
    provider_into p = do
      metadata ← copy_meta p.metadata
      status ← provider_status_into copy_condition p.status
      pure (record { metadata = metadata; spec = p.spec; status = status })

    abbrev pub account_into : StoredAccount M → Copy M (StoredAccount M)
    account_into a = do
      metadata ← copy_meta a.metadata
      status ← account_status_into copy_condition a.status
      pure (record { metadata = metadata; spec = a.spec; status = status })

    module _ {L : Type 0} (copy_list_meta : L → Copy M L) where
      -- BucketList, BucketProviderList and BucketServiceAccountList
      abbrev pub bucket_list_into : StoredList L → Copy M (StoredList L)
      bucket_list_into l = do
        metadata ← copy_list_meta l.metadata
        items ← copy_items buckets_of buckets_cell bucket_into l.items
        pure (record { metadata = metadata; items = items })

      abbrev pub provider_list_into : StoredList L → Copy M (StoredList L)
      provider_list_into l = do
        metadata ← copy_list_meta l.metadata
        items ← copy_items providers_of providers_cell provider_into l.items
        pure (record { metadata = metadata; items = items })

      abbrev pub account_list_into : StoredList L → Copy M (StoredList L)
      account_list_into l = do
        metadata ← copy_list_meta l.metadata
        items ← copy_items accounts_of accounts_cell account_into l.items
        pure (record { metadata = metadata; items = items })
