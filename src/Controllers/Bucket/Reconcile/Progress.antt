-- ===== src/Controllers/Bucket/Reconcile/Progress.antt =====
-- controllers/bucket_controller.go: a pass that runs in an environment that helps it.
use minio_bucket_controller.Base.{String, ◌≡◌, ap, ◌∙◌, [], All, none, some}
use minio_bucket_controller.Api.Meta.{NamespacedName}
use minio_bucket_controller.Api.Bucket.{Bucket, bucket_condition_ready}
use minio_bucket_controller.Api.Provider.{BucketProvider}
use minio_bucket_controller.Libraries.{Libraries}
use minio_bucket_controller.Libraries.Laws.{EqualityLaws}
use minio_bucket_controller.Program.Run.{Environment, run}
use minio_bucket_controller.Program.Relies.{Helps, Meets-helped}
use minio_bucket_controller.Controllers.Provider.Connects.{HasClients}
use minio_bucket_controller.Controllers.Bucket.Reconcile.{reconcile}
use minio_bucket_controller.Controllers.Bucket.Reconcile.Helpful.{IsPrepared, IsTemplate, Helpful}
use minio_bucket_controller.Controllers.Bucket.Reconcile.Steps.{last_phase}
use minio_bucket_controller.Controllers.Bucket.Reconcile.Success.{Success, reconcile-Success}

module _ (E : Environment) (lib : Libraries) (b : Bucket) (p : BucketProvider)
    (wanted : String) where
  -- Take a bucket that nobody deletes, that is not yet ready, and that has its finalizer, all of its
  -- spec, a condition and an endpoint; all of its templates are parsed and executed, clients can be
  -- made for its provider, and `DeepEqual` is as documented. Let the server always reply this
  -- bucket, this provider, an account that is the bucket's controller already, secrets with the keys
  -- that the provider refers to, and the bucket's secret as missing or as one that it may control;
  -- let each write succeed, replied with the condition `Ready` as it was written, and let MinIO
  -- reply that the bucket is there. Then a pass over the bucket returns without an error and without a delay, and the last phase
  -- that it wrote is `Ready`.
  pub reconcile-readies :
      EqualityLaws lib
      → IsPrepared lib b wanted
      → All (IsTemplate lib) b.spec.secret_template
      → HasClients lib p
      → Helps (Helpful lib b p wanted) E
      → (key : NamespacedName) (s : E.State)
      → (last_phase (run E (reconcile lib key) [] s).history ≡ some bucket_condition_ready)
        × ((run E (reconcile lib key) [] s).value
            ≡ some (record { requeue_after = 0; error = none }))
  reconcile-readies laws prepared templates clients helps key s =
      let (r, value, (phase, e)) =
        Meets-helped (Helpful lib b p wanted) E (Success lib b p wanted) (reconcile lib key) s
          (reconcile-Success lib b p wanted laws prepared templates clients key) helps in
      (phase, value ∙ ap (λ r. some r) e)
