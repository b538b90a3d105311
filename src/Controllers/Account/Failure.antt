-- ===== src/Controllers/Account/Failure.antt =====
-- controllers/bucketserviceaccount_controller.go: `err`, which writes an error to the status.
pub mod Laws
use minio_bucket_controller.Base.{String, List, Option, none, some}
use minio_bucket_controller.Errors.{Error, ok, err, combine}
use minio_bucket_controller.Api.Meta.{Condition, status_true, status_false}
use minio_bucket_controller.Api.Bucket.{bucket_condition_error}
use minio_bucket_controller.Api.Account.{
  BucketServiceAccount, account_condition_ready, account_condition_error,
}
use minio_bucket_controller.Api.Object.{account}
use minio_bucket_controller.Libraries.{Libraries}
use minio_bucket_controller.Program.{Program, ret, ask, ◌>>=◌, ◌>>◌, update_account_status, now}
use minio_bucket_controller.Recorder.{warn}
use minio_bucket_controller.Controllers.Status.{
  Reconciled, Step, condition, set_condition, error_text,
}

-- An account whose status has these conditions, and the phase that it had.
abbrev pub with_conditions : BucketServiceAccount → List Condition → BucketServiceAccount
with_conditions a cs = record a { status = record a.status { conditions = cs } }

-- An account whose status has these conditions and this phase.
abbrev pub with_status : BucketServiceAccount → List Condition → String → BucketServiceAccount
with_status a cs phase = record a { status = record a.status { conditions = cs; phase = phase } }

module _ (lib : Libraries) where
  -- `BucketServiceAccountReconciler.err`
  unfoldable pub handle_error :
      BucketServiceAccount → Option Error → String → Program (Option Error)
  unfolding warn
  handle_error a none reason = ret none
  handle_error a (some e) reason = do
    cs ← set_condition lib a.status.conditions (
        condition account_condition_ready status_false reason "Service account is not ready"
          a.metadata.generation)
    t ← ask now
    let failure =
        condition account_condition_error status_true reason (error_text lib e)
          a.metadata.generation
    cs' ← set_condition lib cs (record failure { last_transition_time = t })
    r ← ask (update_account_status (with_status a cs' bucket_condition_error))
    elim r [
      | err e2 ↦ ret (some (combine e e2))
      | ok a' ↦ do warn lib (account a') "BucketError" (error_text lib e); ret (some e)
    ]

  -- `return re, r.err(&a, err, reason)` after a step that did not go on.
  unfoldable pub stopped : Step BucketServiceAccount → String → Program Reconciled
  unfolding handle_error
  stopped s reason = do
    e ← handle_error s.object s.error reason
    ret (record { requeue_after = s.requeue_after; error = e })
