-- ===== src/Controllers/Bucket/Deletion.antt =====
-- controllers/bucket_controller.go: `reconcileDeletion`
pub mod Safety
use minio_bucket_controller.Base.{String, ◌<>◌, ◌==◌, Bool, not, some, if◌then◌else◌}
use minio_bucket_controller.Errors.{ok, err, wrap, is_not_found}
use minio_bucket_controller.Api.Meta.{status_true}
use minio_bucket_controller.Api.Bucket.{Bucket, bucket_condition_deleting, bucket_reclaim_delete}
use minio_bucket_controller.Api.Object.{bucket}
use minio_bucket_controller.Libraries.{Libraries}
use minio_bucket_controller.Program.{
  Program, ret, ask, ◌>>=◌, ◌>>◌, get_provider, update_bucket_status, force_remove_bucket,
}
use minio_bucket_controller.Recorder.{event}
use minio_bucket_controller.Controllers.Status.{Step, go_on, stop, fail, condition, set_condition}
use minio_bucket_controller.Controllers.Provider.{new_client}
use minio_bucket_controller.Controllers.Bucket.Failure.{with_status}

module _ (lib : Libraries) where
  -- The first pass marks the bucket as being deleted.
  unfoldable pub mark_deleting : Bucket → Program (Step Bucket)
  unfolding event
  mark_deleting b = do
    cs ← set_condition lib b.status.conditions (
        condition bucket_condition_deleting status_true "Deleting" "Bucket is being deleted"
          b.metadata.generation)
    let marked = with_status b cs bucket_condition_deleting
    r ← ask (update_bucket_status marked)
    elim r [
      | err e ↦ fail marked (wrap "unable to update bucket status" e)
      | ok b' ↦ do
        event lib (bucket b') "BucketDeleting"
            ("Bucket " <> (b'.metadata.name <> " is being deleted"))
        stop b'
    ]

  -- The later passes remove it from MinIO, where the policy says so.
  unfoldable pub delete_bucket : Bucket → Program (Step Bucket)
  unfolding event new_client
  delete_bucket b = do
    found ← ask (get_provider (record { namespace = ""; name = b.spec.provider }))
    elim found [
      | err e ↦ if is_not_found e then go_on b else fail b (wrap "unable to get bucket provider" e)
      | ok p ↦ do
        client ← new_client lib p
        elim client [
          | err e ↦ fail b (wrap "unable to create minio client" e)
          | ok mc ↦ if not (b.spec.reclaim_policy == bucket_reclaim_delete) then go_on b else (do
            r ← ask (force_remove_bucket mc b.metadata.name)
            elim r [
              | err e ↦ fail b (wrap "unable to remove bucket" e)
              | ok _ ↦ do
                event lib (bucket b) "BucketDeleted" ("Bucket " <> (b.metadata.name <> " deleted"))
                go_on b
            ])
        ]
    ]

  -- `reconcileDeletion`
  unfoldable pub reconcile_deletion : Bucket → Program (Step Bucket)
  unfolding mark_deleting delete_bucket
  reconcile_deletion b =
      if not (lib.is_status_condition_true b.status.conditions bucket_condition_deleting)
      then mark_deleting b
      else delete_bucket b
