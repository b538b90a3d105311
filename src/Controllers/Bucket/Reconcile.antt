-- ===== src/Controllers/Bucket/Reconcile.antt =====
-- controllers/bucket_controller.go: `Reconcile`
pub mod Rule
pub mod Removal
pub mod Release
pub mod Order
pub mod Lifecycle
pub mod Reachable
pub mod Completion
pub mod Termination
pub mod Helpful
pub mod Steps
pub mod Success
pub mod Progress
use minio_bucket_controller.Base.{
  String, ◌<>◌, ◌==◌, List, not, is_empty, none, some, if◌then◌else◌,
}
use minio_bucket_controller.Errors.{Error, ok, err, new, wrap, is_not_found}
use minio_bucket_controller.Api.Meta.{NamespacedName, status_true, is_zero}
use minio_bucket_controller.Api.Bucket.{
  Bucket, bucket_reclaim_retain, bucket_condition_creating, bucket_condition_ready,
  bucket_condition_error, reason_err_create_bucket, reason_err_create_service_account,
  reason_err_create_secret,
}
use minio_bucket_controller.Api.Provider.{err_provider_invalid}
use minio_bucket_controller.Api.Object.{bucket}
use minio_bucket_controller.Libraries.{Libraries}
use minio_bucket_controller.Mc.Client.{Client}
use minio_bucket_controller.Program.{
  Program, ret, ask, ◌>>=◌, ◌>>◌, get_bucket, get_provider, update_bucket, update_bucket_status,
}
use minio_bucket_controller.Recorder.{event}
use minio_bucket_controller.Controllers.Status.{
  finalizer, Reconciled, Step, finished, returned, condition, set_condition,
}
use minio_bucket_controller.Controllers.Provider.{default_provider, new_client}
use minio_bucket_controller.Controllers.Bucket.Failure.{with_status, handle_error, stopped}
use minio_bucket_controller.Controllers.Bucket.Deletion.{reconcile_deletion}
use minio_bucket_controller.Controllers.Bucket.Resources.{
  reconcile_bucket, reconcile_service_account,
}
use minio_bucket_controller.Controllers.Bucket.Credentials.{reconcile_secret}

-- `if err := r.Update(ctx, &bucket); err != nil { return ctrl.Result{}, err }`, and the return.
abbrev pub update_and_return : Bucket → Program Reconciled
update_and_return b = do
  r ← ask (update_bucket b)
  elim r [ err e ↦ returned (some e) | ok b' ↦ finished ]

abbrev pub with_finalizers : Bucket → List String → Bucket
with_finalizers b fs = record b { metadata = record b.metadata { finalizers = fs } }

-- The secret's name of a bucket that does not say one.
abbrev pub default_secret_name : Bucket → String
default_secret_name b = b.metadata.name <> "-bucket-credentials"

module _ (lib : Libraries) where
  -- A bucket with a deletion time: the finalizer goes once the deletion went on.
  unfoldable pub reconcile_deleted : Bucket → Program Reconciled
  reconcile_deleted b = do
    s ← reconcile_deletion lib b
    if not s.done then ret (record { requeue_after = s.requeue_after; error = s.error }) else (do
      let kept = lib.remove_finalizer s.object.metadata.finalizers finalizer
      r ← ask (update_bucket (with_finalizers s.object kept))
      elim r [ err e ↦ if is_not_found e then finished else returned (some e) | ok b' ↦ finished ])

  -- Everything is there: the bucket is marked as ready, unless it is.
  unfoldable pub mark_ready : Bucket → Program Reconciled
  unfolding event
  mark_ready b =
      if not (lib.is_status_condition_true b.status.conditions bucket_condition_ready)
      then (do
        let cleared =
            lib.remove_status_condition
              (lib.remove_status_condition b.status.conditions bucket_condition_creating)
              bucket_condition_error
        cs ← set_condition lib cleared (
            condition bucket_condition_ready status_true "Ready" "Bucket is ready"
              b.metadata.generation)
        r ← ask (update_bucket_status (with_status b cs bucket_condition_ready))
        elim r [
          | err e ↦ returned (some e)
          | ok b' ↦ do
            event lib (bucket b') "BucketReady" ("Bucket " <> (b'.metadata.name <> " is ready"))
            finished
        ])
      else finished

  -- The service account, the bucket in MinIO and the secret, one after the other.
  unfoldable pub reconcile_resources : Client → Bucket → Program Reconciled
  reconcile_resources mc b = do
    s1 ← reconcile_service_account lib b
    if not s1.done then stopped lib s1 reason_err_create_service_account else (do
      s2 ← reconcile_bucket lib mc s1.object
      if not s2.done then stopped lib s2 reason_err_create_bucket else (do
        s3 ← reconcile_secret lib mc s2.object
        if not s3.done then stopped lib s3 reason_err_create_secret else mark_ready s3.object))

  -- `return ctrl.Result{}, r.err(&bucket, err, reason)`
  unfoldable pub failed : Bucket → Error → String → Program Reconciled
  unfolding handle_error
  failed b e reason = do e' ← handle_error lib b (some e) reason; returned e'

  -- The provider and its client, for the steps that follow.
  unfoldable pub reconcile_with_provider : Bucket → Program Reconciled
  reconcile_with_provider b = do
    found ← ask (get_provider (record { namespace = ""; name = b.spec.provider }))
    elim found [
      | err e ↦
          if is_not_found e
          then failed b (new ("referenced bucket provider " <> (b.spec.provider <> " not found")))
              err_provider_invalid
          else returned (some e)
      | ok p ↦ do
        client ← new_client lib p
        elim client [
          | err e ↦ failed b (wrap "unable to create minio client" e) err_provider_invalid
          | ok mc ↦ reconcile_resources mc b
        ]
    ]

  -- The first status of a bucket.
  unfoldable pub mark_creating : Bucket → Program Reconciled
  unfolding event
  mark_creating b = do
    cs ← set_condition lib b.status.conditions (
        condition bucket_condition_creating status_true "Creating" "Bucket is being created"
          b.metadata.generation)
    r ← ask (update_bucket_status (with_status b cs bucket_condition_creating))
    elim r [
      | err e ↦ returned (some e)
      | ok b' ↦ do
        event lib (bucket b') "BucketCreating"
            ("Bucket " <> (b'.metadata.name <> " is being created"))
        finished
    ]

  -- The name of the default provider is written to the spec.
  unfoldable pub set_default_provider : Bucket → Program Reconciled
  set_default_provider b = do
    found ← default_provider
    elim found [
      | err e ↦ returned (some e)
      | ok none ↦ failed b (new "no default bucket provider set") err_provider_invalid
      | ok (some d) ↦
          update_and_return (record b { spec = record b.spec { provider = d.metadata.name } })
    ]

  -- A bucket that stays: each pass completes one field of the spec, then the first status, then
  -- the resources.
  unfoldable pub reconcile_spec : Bucket → Program Reconciled
  reconcile_spec b =
      if b.spec.provider == "" then set_default_provider b else elim b.spec.secret_name [
        | none ↦
            update_and_return
              (record b { spec = record b.spec { secret_name = some (default_secret_name b) } })
        | some n ↦
            if b.spec.reclaim_policy == ""
            then update_and_return
                (record b { spec = record b.spec { reclaim_policy = bucket_reclaim_retain } })
            else if is_empty b.status.conditions
            then mark_creating b
            else reconcile_with_provider b
      ]

  unfoldable pub reconcile_object : Bucket → Program Reconciled
  reconcile_object b =
      if not (is_zero b.metadata.deletion_timestamp)
      then reconcile_deleted b
      else let added = lib.add_finalizer b.metadata.finalizers finalizer in
        if added.updated
        then update_and_return (with_finalizers b added.finalizers)
        else reconcile_spec b

  -- `Reconcile`
  unfoldable pub reconcile : NamespacedName → Program Reconciled
  reconcile key = do
    r ← ask (get_bucket key)
    elim r [
      | err e ↦ if is_not_found e then finished else returned (some e)
      | ok b ↦ reconcile_object b
    ]
