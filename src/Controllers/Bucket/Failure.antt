-- ===== src/Controllers/Bucket/Failure.antt =====
-- controllers/bucket_controller.go: `err`, which writes an error to the bucket's status.
pub mod Laws
use minio_bucket_controller.Base.{String, List, Option, none, some}
use minio_bucket_controller.Errors.{Error, ok, err, combine}
use minio_bucket_controller.Api.Meta.{Condition, status_true, status_false}
use minio_bucket_controller.Api.Bucket.{Bucket, bucket_condition_ready, bucket_condition_error}
use minio_bucket_controller.Api.Object.{bucket}
use minio_bucket_controller.Libraries.{Libraries}
use minio_bucket_controller.Program.{Program, ret, ask, ◌>>=◌, ◌>>◌, update_bucket_status, now}
use minio_bucket_controller.Recorder.{warn}
use minio_bucket_controller.Controllers.Status.{
  Reconciled, Step, condition, set_condition, error_text,
}

-- A bucket whose status has these conditions and this phase.
abbrev pub with_status : Bucket → List Condition → String → Bucket
with_status b cs phase = record b { status = record b.status { conditions = cs; phase = phase } }

module _ (lib : Libraries) where
  -- `BucketReconciler.err`
  unfoldable pub handle_error : Bucket → Option Error → String → Program (Option Error)
  unfolding warn
  handle_error b none reason = ret none
  handle_error b (some e) reason = do
    cs ← set_condition lib b.status.conditions (
        condition bucket_condition_ready status_false "Ready" "Bucket is not ready"
          b.metadata.generation)
    t ← ask now
    let failure =
        condition bucket_condition_error status_true reason (error_text lib e) b.metadata.generation
    cs' ← set_condition lib cs (record failure { last_transition_time = t })
    r ← ask (update_bucket_status (with_status b cs' bucket_condition_error))
    elim r [
      | err e2 ↦ ret (some (combine e e2))
      | ok b' ↦ do warn lib (bucket b') "BucketError" (error_text lib e); ret (some e)
    ]

  -- `return re, r.err(&bucket, err, reason)` after a step that did not go on.
  unfoldable pub stopped : Step Bucket → String → Program Reconciled
  unfolding handle_error
  stopped s reason = do
    e ← handle_error s.object s.error reason
    ret (record { requeue_after = s.requeue_after; error = e })
