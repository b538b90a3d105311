-- ===== src/Controllers/Bucket/Deletion/Safety.antt =====
-- controllers/bucket_controller.go: `reconcileDeletion` and the removal of buckets from MinIO.
use minio_bucket_controller.Base.{String, ◌≡◌, eq_iff, true, false, Option, none, some, arith}
use minio_bucket_controller.Api.Meta.{is_zero}
use minio_bucket_controller.Api.Bucket.{Bucket, bucket_condition_deleting, bucket_reclaim_delete}
use minio_bucket_controller.Libraries.{Libraries}
use minio_bucket_controller.Program.{Call, force_remove_bucket, remove_bucket}
use minio_bucket_controller.Program.Contract.{History, Contract, Meets}
use minio_bucket_controller.Controllers.History.{fetched_bucket, Made}
use minio_bucket_controller.Controllers.Bucket.Deletion.{reconcile_deletion}

module _ (lib : Libraries) where
  -- The bucket that was fetched is being deleted, is marked so, and its policy is to delete.
  abbrev pub Wanted : String → Option Bucket → Type 0
  Wanted name none = ⊥
  Wanted name (some b) =
      (b.metadata.name ≡ name)
      × (is_zero b.metadata.deletion_timestamp ≡ false)
      × (b.spec.reclaim_policy ≡ bucket_reclaim_delete)
      × (lib.is_status_condition_true b.status.conditions bucket_condition_deleting ≡ true)

  abbrev pub MayRemove : History → Call → Type 0
  MayRemove h (force_remove_bucket mc name) = Wanted name (fetched_bucket h)
  MayRemove h (remove_bucket mc name) = Made mc name h
  MayRemove h c = Unit

  abbrev pub removal : {A : Type 0} → (History → A → Type 0) → Contract A
  removal P = record { may_call = MayRemove; may_return = P; may_halt = λ h. Unit }

  reconcile_deletion-removal :
      (h : History) (b : Bucket)
      → fetched_bucket h ≡ some b
      → is_zero b.metadata.deletion_timestamp ≡ false
      → Meets (removal (λ h' s. Unit)) h (reconcile_deletion lib b)
  unfolding reconcile_deletion
  reconcile_deletion-removal h b f z =
      ground (arith, eq_iff b.spec.reclaim_policy bucket_reclaim_delete)
