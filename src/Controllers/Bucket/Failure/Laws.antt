-- ===== src/Controllers/Bucket/Failure/Laws.antt =====
-- controllers/bucket_controller.go: the error of a step of the bucket's reconciler.
use minio_bucket_controller.Base.{◌≡◌, is_some, String, [], true, arith}
use minio_bucket_controller.Api.Bucket.{Bucket, bucket_condition_error}
use minio_bucket_controller.Libraries.{Libraries}
use minio_bucket_controller.Program.{Call, update_bucket_status, record_event, now}
use minio_bucket_controller.Program.Contract.{Contract, Meets}
use minio_bucket_controller.Controllers.Status.{Reconciled, Step}
use minio_bucket_controller.Controllers.Bucket.Failure.{stopped}

abbrev pub MayReport : Step Bucket → Call → Type 0
MayReport s now = Unit
MayReport s (record_event o type reason message) = is_some s.error ≡ true
MayReport s (update_bucket_status b) =
    (is_some s.error ≡ true)
    × (b.metadata ≡ s.object.metadata)
    × (b.spec ≡ s.object.spec)
    × (b.status.phase ≡ bucket_condition_error)
MayReport s c = ⊥

abbrev pub report : Step Bucket → Contract Reconciled
report s = record {
  may_call = λ h c. MayReport s c;
  may_return = λ h r. (is_some r.error ≡ is_some s.error) × (r.requeue_after ≡ s.requeue_after);
  may_halt = λ h. ⊥;
}

-- After a step of the bucket's reconciler that did not go on, the pass returns an error exactly where
-- the step did, with the step's delay. It writes nothing but, where there is an error, the bucket's
-- status, with the phase `Error`.
pub stopped-reports :
    (lib : Libraries) (s : Step Bucket) (reason : String)
    → Meets (report s) [] (stopped lib s reason)
unfolding stopped
stopped-reports lib s reason = ground arith
