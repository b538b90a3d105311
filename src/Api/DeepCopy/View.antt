-- ===== src/Api/DeepCopy/View.antt =====
-- The values that the structs in memory stand for. A nil map or slice reads as an empty one; an
-- address out of use, and one that holds another type, cannot be read.
use minio_bucket_controller.Base.{
  ℕ, String, Bool, true, not, ◌&&◌, List, [], ◌∷◌, Option, none, some, if◌then◌else◌,
}
use minio_bucket_controller.Base.Dict.{Dict, has_key}
use minio_bucket_controller.Api.Meta.{Condition, ObjectMeta}
use minio_bucket_controller.Api.Bucket.{BucketSpec, BucketStatus, Bucket}
use minio_bucket_controller.Api.Provider.{BucketProviderStatus, BucketProvider}
use minio_bucket_controller.Api.Account.{BucketServiceAccountStatus, BucketServiceAccount}
use minio_bucket_controller.Api.DeepCopy.Memory.{
  StoredBucketSpec, StoredBucketStatus, StoredBucket, StoredProviderStatus, StoredProvider,
  StoredAccountStatus, StoredAccount, StoredList, Cell, text_cell, map_cell, conditions_cell,
  buckets_cell, providers_cell, accounts_cell, Memory, load,
}

abbrev pub chain : {A B : Type 0} → Option A → (A → Option B) → Option B
chain none f = none
chain (some a) f = f a

infixl 5 ◌>>=◌
abbrev ◌>>=◌ : {A B : Type 0} → Option A → (A → Option B) → Option B
o >>= f = chain o f

-- A Go map has each key once.
abbrev pub distinct : Dict String → Bool
distinct [] = true
distinct ((k, v) ∷ d) = not (has_key k d) && distinct d

-- `metav1.ListMeta` of a list, and its items.
pub record ResourceList (L V : Type 0) : Type 0 where
  pub metadata : L
  pub items : List V

module _ {M : Type 0} where
  -- The contents of a cell of each type.
  abbrev pub text_of : Option (Cell M) → Option String
  text_of (some (text_cell s)) = some s
  text_of _ = none

  abbrev pub map_of : Option (Cell M) → Option (Dict String)
  map_of (some (map_cell d)) = if distinct d then some d else none
  map_of _ = none

  abbrev pub conditions_of : Option (Cell M) → Option (List Condition)
  conditions_of (some (conditions_cell cs)) = some cs
  conditions_of _ = none

  abbrev pub buckets_of : Option (Cell M) → Option (List (StoredBucket M))
  buckets_of (some (buckets_cell bs)) = some bs
  buckets_of _ = none

  abbrev pub providers_of : Option (Cell M) → Option (List (StoredProvider M))
  providers_of (some (providers_cell ps)) = some ps
  providers_of _ = none

  abbrev pub accounts_of : Option (Cell M) → Option (List (StoredAccount M))
  accounts_of (some (accounts_cell xs)) = some xs
  accounts_of _ = none

  -- What a pointer, a map or a slice stands for: a value of its own for nil, and else what is made of
  -- the cell's contents.
  abbrev pub view_reference :
      {A V : Type 0}
      → (Option (Cell M) → Option A)
      → (Memory M → A → Option V)
      → V
      → Memory M
      → Option ℕ
      → Option V
  view_reference of inner nil m none = some nil
  view_reference of inner nil m (some a) = do x ← of (load m a); inner m x

  abbrev pub view_text : Memory M → Option ℕ → Option (Option String)
  view_text = view_reference text_of (λ m s. some (some s)) none

  abbrev pub view_map : Memory M → Option ℕ → Option (Dict String)
  view_map = view_reference map_of (λ m d. some d) []

  abbrev pub view_conditions : Memory M → Option ℕ → Option (List Condition)
  view_conditions = view_reference conditions_of (λ m cs. some cs) []

  abbrev pub view_bucket_spec : Memory M → StoredBucketSpec → Option BucketSpec
  view_bucket_spec m s = do
    secret_name ← view_text m s.secret_name
    secret_template ← view_map m s.secret_template
    some (record {
      provider = s.provider;
      service_account = s.service_account;
      reclaim_policy = s.reclaim_policy;
      secret_name = secret_name;
      secret_template = secret_template;
    })

  abbrev pub view_bucket_status : Memory M → StoredBucketStatus → Option BucketStatus
  view_bucket_status m s = do
    endpoint ← view_text m s.endpoint
    secret_name ← view_text m s.secret_name
    conditions ← view_conditions m s.conditions
    some (record {
      endpoint = endpoint;
      secret_name = secret_name;
      conditions = conditions;
      phase = s.phase;
    })

  abbrev pub view_provider_status : Memory M → StoredProviderStatus → Option BucketProviderStatus
  view_provider_status m s = do
    conditions ← view_conditions m s.conditions
    some (record { conditions = conditions; phase = s.phase })

  abbrev pub view_account_status :
      Memory M → StoredAccountStatus → Option BucketServiceAccountStatus
  view_account_status m s = do
    secret_name ← view_text m s.secret_name
    conditions ← view_conditions m s.conditions
    some (record { secret_name = secret_name; conditions = conditions; phase = s.phase })

  -- The elements of a slice, one after the other.
  abbrev pub view_each :
      {S V : Type 0} → (Memory M → S → Option V) → Memory M → List S → Option (List V)
  view_each view m [] = some []
  view_each view m (s ∷ ss) = do v ← view m s; vs ← view_each view m ss; some (v ∷ vs)

  abbrev pub view_items :
      {S V : Type 0}
      → (Option (Cell M) → Option (List S))
      → (Memory M → S → Option V)
      → Memory M
      → Option ℕ
      → Option (List V)
  view_items of view = view_reference of (view_each view) []

  module _ (view_meta : Memory M → M → Option ObjectMeta) where
    abbrev pub view_bucket : Memory M → StoredBucket M → Option Bucket
    view_bucket m b = do
      metadata ← view_meta m b.metadata
      spec ← view_bucket_spec m b.spec
      status ← view_bucket_status m b.status
      some (record { metadata = metadata; spec = spec; status = status })

    abbrev pub view_provider : Memory M → StoredProvider M → Option BucketProvider
    view_provider m p = do
      metadata ← view_meta m p.metadata
      status ← view_provider_status m p.status
      some (record { metadata = metadata; spec = p.spec; status = status })

    abbrev pub view_account : Memory M → StoredAccount M → Option BucketServiceAccount
    view_account m a = do
      metadata ← view_meta m a.metadata
      status ← view_account_status m a.status
      some (record { metadata = metadata; spec = a.spec; status = status })

  -- A list, whose items stand in a cell of their type.
  abbrev pub view_list :
      {L W S V : Type 0}
      → (Memory M → L → Option W)
      → (Option (Cell M) → Option (List S))
      → (Memory M → S → Option V)
      → Memory M
      → StoredList L
      → Option (ResourceList W V)
  view_list view_meta of view m l = do
    metadata ← view_meta m l.metadata
    items ← view_items of view m l.items
    some (record { metadata = metadata; items = items })
