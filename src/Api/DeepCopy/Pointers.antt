-- ===== src/Api/DeepCopy/Pointers.antt =====
-- api/v1alpha1/zz_generated.deepcopy.go: the addresses that a struct points to.
use minio_bucket_controller.Base.{ℕ, ◌≡◌, ◌⊎◌, Option, none, some, [], arith}
use minio_bucket_controller.Api.Meta.{ObjectMeta}
use minio_bucket_controller.Api.DeepCopy.Memory.{StoredBucket, Memory, buckets_cell, write}
use minio_bucket_controller.Api.DeepCopy.View.{view_text, view_map, view_conditions, view_bucket}

-- The bucket points to this address, outside its metadata.
abbrev pub PointsTo : {M : Type 0} → StoredBucket M → ℕ → Type 0
PointsTo b a =
    (b.spec.secret_name ≡ some a)
    ⊎ ((b.spec.secret_template ≡ some a)
        ⊎ ((b.status.endpoint ≡ some a)
            ⊎ ((b.status.secret_name ≡ some a) ⊎ (b.status.conditions ≡ some a))))

module _ {M : Type 0} (view_meta : Memory M → M → Option ObjectMeta) where
  broken_text : (m : Memory M) (a : ℕ) → view_text (write m a (buckets_cell [])) (some a) ≡ none
  broken_text m a = ground arith

  broken_map : (m : Memory M) (a : ℕ) → view_map (write m a (buckets_cell [])) (some a) ≡ none
  broken_map m a = ground arith

  broken_conditions :
      (m : Memory M) (a : ℕ) → view_conditions (write m a (buckets_cell [])) (some a) ≡ none
  broken_conditions m a = ground arith

  -- A bucket cannot be read where the cell under one of its pointers has another type.
  pub PointsTo-none :
      (m : Memory M) (b : StoredBucket M) (a : ℕ)
      → PointsTo b a
      → view_bucket view_meta (write m a (buckets_cell [])) b ≡ none
  PointsTo-none m b a points =
      ground (arith, broken_text m a, broken_map m a, broken_conditions m a)
