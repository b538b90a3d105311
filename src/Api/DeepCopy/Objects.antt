-- ===== src/Api/DeepCopy/Objects.antt =====
-- api/v1alpha1/zz_generated.deepcopy.go: copies of buckets, and of lists of resources.
use minio_bucket_controller.Base.{Bool-cases, inl, inr, ltb, [], arith, ℕ, ◌<◌, ◌≡◌, Option, some}
use minio_bucket_controller.Api.Meta.{Condition, ObjectMeta}
use minio_bucket_controller.Api.Bucket.{Bucket}
use minio_bucket_controller.Api.Provider.{BucketProvider}
use minio_bucket_controller.Api.Account.{BucketServiceAccount}
use minio_bucket_controller.Api.DeepCopy.Memory.{
  buckets_cell, StoredBucket, StoredList, Cell, Memory, write, Copy,
}
use minio_bucket_controller.Api.DeepCopy.View.{
  ResourceList, view_bucket, view_provider, view_account, view_list, buckets_of, providers_of,
  accounts_of,
}
use minio_bucket_controller.Api.DeepCopy.Methods.{
  bucket_copy, bucket_list_copy, provider_list_copy, account_list_copy,
}
use minio_bucket_controller.Api.DeepCopy.Copies.{
  bucket_into, bucket_list_into, provider_list_into, account_list_into,
}
use minio_bucket_controller.Api.DeepCopy.Deep.{IsLocal, IsDeep}
use minio_bucket_controller.Api.DeepCopy.Structs.{DeepLaws, bucket-IsLocal, bucket-IsDeep}
use minio_bucket_controller.Api.DeepCopy.Structs.Lists.{
  bucket_list-IsLocal, bucket_list-IsDeep, provider_list-IsLocal, provider_list-IsDeep,
  account_list-IsLocal, account_list-IsDeep,
}
use minio_bucket_controller.Api.DeepCopy.Pointers.{PointsTo, PointsTo-none}
use minio_bucket_controller.Api.DeepCopy.Separate.{
  deep_copy-view, deep_copy-original, deep_copy-copy,
}

module _ {M : Type 0} (view_meta : Memory M → M → Option ObjectMeta) (copy_meta : M → Copy M M)
    (copy_condition : Condition → Condition)
    (laws : DeepLaws view_meta copy_meta copy_condition) where
  -- Where the copies of the metadata and of the conditions are deep: `DeepCopy` of a bucket that
  -- stands in memory returns, and both the copy and the original then stand for what the original
  -- stood for.
  pub bucket_copy-view :
      (m : Memory M) (b : StoredBucket M) (v : Bucket)
      → view_bucket view_meta m b ≡ some v
      → (b' : StoredBucket M) × (m' : Memory M) × (bucket_copy copy_meta copy_condition (some b) m
          ≡ some (some b', m'))
        × (view_bucket view_meta m' b' ≡ some v)
        × (view_bucket view_meta m' b ≡ some v)
  bucket_copy-view m b v e =
      deep_copy-view (view_bucket view_meta) (bucket_into copy_meta copy_condition) m b v
        (bucket-IsLocal view_meta copy_meta copy_condition laws)
        (bucket-IsDeep view_meta copy_meta copy_condition laws) e

  -- Where the copies of the metadata and of the conditions are deep: after `DeepCopy` of a bucket, a
  -- write to any address that was in use before leaves the copy as it was.
  pub bucket_copy-copy :
      (m m' : Memory M) (b b' : StoredBucket M) (v : Bucket) (a : ℕ) (c : Cell M)
      → view_bucket view_meta m b ≡ some v
      → bucket_copy copy_meta copy_condition (some b) m ≡ some (some b', m')
      → a < m.next
      → view_bucket view_meta (write m' a c) b' ≡ some v
  bucket_copy-copy m m' b b' v a c e f old =
      deep_copy-copy (view_bucket view_meta) (bucket_into copy_meta copy_condition) m m' b b' v a c
        (bucket-IsDeep view_meta copy_meta copy_condition laws) e f old

  -- Where the copies of the metadata and of the conditions are deep: after `DeepCopy` of a bucket, a
  -- write through any pointer, map or slice of the copy's spec and status, whatever is written,
  -- leaves the original as it was.
  pub bucket_copy-original :
      (m m' : Memory M) (b b' : StoredBucket M) (v : Bucket) (a : ℕ) (c : Cell M)
      → view_bucket view_meta m b ≡ some v
      → bucket_copy copy_meta copy_condition (some b) m ≡ some (some b', m')
      → PointsTo b' a
      → view_bucket view_meta (write m' a c) b ≡ some v
  bucket_copy-original m m' b b' v a c e f points = elim (Bool-cases (ltb a m.next)) [
    | inl old ↦
        let kept = bucket_copy-copy m m' b b' v a (buckets_cell []) e f (ground arith) in
        let broken = PointsTo-none view_meta m' b' a points in cc
    | inr new ↦
        deep_copy-original (view_bucket view_meta) (bucket_into copy_meta copy_condition) m m' b b'
          v a c (bucket-IsLocal view_meta copy_meta copy_condition laws)
          (bucket-IsDeep view_meta copy_meta copy_condition laws) e f (ground arith)
  ]

  module _ {L W : Type 0} (view_list_meta : Memory M → L → Option W) (copy_list_meta : L → Copy M L)
      (list_local : IsLocal view_list_meta) (list_deep : IsDeep view_list_meta copy_list_meta) where
    -- Where the copies of the metadata and of the conditions are deep: `DeepCopy` of a list of
    -- buckets that stands in memory returns, and both the copy and the original then stand for what
    -- the original stood for.
    pub bucket_list_copy-view :
        (m : Memory M) (l : StoredList L) (v : ResourceList W Bucket)
        → view_list view_list_meta buckets_of (view_bucket view_meta) m l ≡ some v
        → (l' : StoredList L) × (m' : Memory M) × (bucket_list_copy copy_meta copy_condition
              copy_list_meta
              (some l)
              m
            ≡ some (some l', m'))
          × (view_list view_list_meta buckets_of (view_bucket view_meta) m' l' ≡ some v)
          × (view_list view_list_meta buckets_of (view_bucket view_meta) m' l ≡ some v)
    bucket_list_copy-view m l v e =
        deep_copy-view (view_list view_list_meta buckets_of (view_bucket view_meta))
          (bucket_list_into copy_meta copy_condition copy_list_meta) m l v
          (bucket_list-IsLocal view_meta copy_meta copy_condition laws view_list_meta copy_list_meta
            list_local list_deep)
          (bucket_list-IsDeep view_meta copy_meta copy_condition laws view_list_meta copy_list_meta
            list_local list_deep)
          e

    -- Where the copies of the metadata and of the conditions are deep: `DeepCopy` of a list of
    -- providers that stands in memory returns, and both the copy and the original then stand for what
    -- the original stood for.
    pub provider_list_copy-view :
        (m : Memory M) (l : StoredList L) (v : ResourceList W BucketProvider)
        → view_list view_list_meta providers_of (view_provider view_meta) m l ≡ some v
        → (l' : StoredList L) × (m' : Memory M) × (provider_list_copy copy_meta copy_condition
              copy_list_meta
              (some l)
              m
            ≡ some (some l', m'))
          × (view_list view_list_meta providers_of (view_provider view_meta) m' l' ≡ some v)
          × (view_list view_list_meta providers_of (view_provider view_meta) m' l ≡ some v)
    provider_list_copy-view m l v e =
        deep_copy-view (view_list view_list_meta providers_of (view_provider view_meta))
          (provider_list_into copy_meta copy_condition copy_list_meta) m l v
          (provider_list-IsLocal view_meta copy_meta copy_condition laws view_list_meta
            copy_list_meta list_local list_deep)
          (provider_list-IsDeep view_meta copy_meta copy_condition laws view_list_meta
            copy_list_meta list_local list_deep)
          e

    -- Where the copies of the metadata and of the conditions are deep: `DeepCopy` of a list of
    -- accounts that stands in memory returns, and both the copy and the original then stand for what
    -- the original stood for.
    pub account_list_copy-view :
        (m : Memory M) (l : StoredList L) (v : ResourceList W BucketServiceAccount)
        → view_list view_list_meta accounts_of (view_account view_meta) m l ≡ some v
        → (l' : StoredList L) × (m' : Memory M) × (account_list_copy copy_meta copy_condition
              copy_list_meta
              (some l)
              m
            ≡ some (some l', m'))
          × (view_list view_list_meta accounts_of (view_account view_meta) m' l' ≡ some v)
          × (view_list view_list_meta accounts_of (view_account view_meta) m' l ≡ some v)
    account_list_copy-view m l v e =
        deep_copy-view (view_list view_list_meta accounts_of (view_account view_meta))
          (account_list_into copy_meta copy_condition copy_list_meta) m l v
          (account_list-IsLocal view_meta copy_meta copy_condition laws view_list_meta
            copy_list_meta list_local list_deep)
          (account_list-IsDeep view_meta copy_meta copy_condition laws view_list_meta copy_list_meta
            list_local list_deep)
          e

    -- Where the copies of the metadata and of the conditions are deep: after `DeepCopy` of a list of
    -- buckets, a write to any address that was in use before leaves the copy and its items as they
    -- were.
    pub bucket_list_copy-copy :
        (m m' : Memory M) (l l' : StoredList L) (v : ResourceList W Bucket) (a : ℕ) (c : Cell M)
        → view_list view_list_meta buckets_of (view_bucket view_meta) m l ≡ some v
        → bucket_list_copy copy_meta copy_condition copy_list_meta (some l) m ≡ some (some l', m')
        → a < m.next
        → view_list view_list_meta buckets_of (view_bucket view_meta) (write m' a c) l' ≡ some v
    bucket_list_copy-copy m m' l l' v a c e f old =
        deep_copy-copy (view_list view_list_meta buckets_of (view_bucket view_meta))
          (bucket_list_into copy_meta copy_condition copy_list_meta) m m' l l' v a c
          (bucket_list-IsDeep view_meta copy_meta copy_condition laws view_list_meta copy_list_meta
            list_local list_deep)
          e f old
