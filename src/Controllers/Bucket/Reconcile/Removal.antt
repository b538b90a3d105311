-- ===== src/Controllers/Bucket/Reconcile/Removal.antt =====
-- controllers/bucket_controller.go: which calls of a pass over a bucket remove a bucket from MinIO.
use minio_bucket_controller.Errors.{ok, err}
use minio_bucket_controller.Program.{get_bucket}
use minio_bucket_controller.Controllers.Provider.{new_client, default_provider}
use minio_bucket_controller.Base.{refl, String, ◌≡◌, eq_iff, false, some, [], ◌∷◌, arith}
use minio_bucket_controller.Api.Meta.{NamespacedName, is_zero}
use minio_bucket_controller.Api.Bucket.{Bucket, bucket_reclaim_delete}
use minio_bucket_controller.Libraries.{Libraries}
use minio_bucket_controller.Mc.Client.{Client}
use minio_bucket_controller.Program.Contract.{History, Meets, Meets-seq}
use minio_bucket_controller.Controllers.Status.{Step}
use minio_bucket_controller.Controllers.History.{fetched_bucket}
use minio_bucket_controller.Controllers.Bucket.Failure.{stopped}
use minio_bucket_controller.Controllers.Bucket.Deletion.{reconcile_deletion}
use minio_bucket_controller.Controllers.Bucket.Deletion.Safety.{removal}
use minio_bucket_controller.Controllers.Bucket.Resources.{
  reconcile_bucket, reconcile_service_account,
}
use minio_bucket_controller.Controllers.Bucket.Credentials.{
  reconcile_secret, delete_old_secret, find_secret, write_secret, save_if_changed, save_secret,
}
use minio_bucket_controller.Controllers.Bucket.Reconcile.{
  mark_ready, reconcile_deleted, reconcile_resources, reconcile_with_provider, reconcile_spec,
  reconcile_object, reconcile, set_default_provider, mark_creating, failed,
}
use minio_bucket_controller.Controllers.Bucket.Reconcile.Rule.{GoesOn, reconcile_resources-Meets}

module _ (lib : Libraries) where
  reconcile_deleted-removal :
      (h : History) (b : Bucket)
      → fetched_bucket h ≡ some b
      → is_zero b.metadata.deletion_timestamp ≡ false
      → Meets (removal lib (λ h' s. Unit)) h (reconcile_deleted lib b)
  unfolding reconcile_deleted reconcile_deletion
  reconcile_deleted-removal h b f z =
      ground (arith, eq_iff b.spec.reclaim_policy bucket_reclaim_delete)

  reconcile_account-removal :
      (h : History) (b : Bucket)
      → Meets (removal lib (GoesOn (λ h b. Unit))) h (reconcile_service_account lib b)
  unfolding reconcile_service_account
  reconcile_account-removal h b = ground arith

  reconcile_bucket-removal :
      (h : History) (mc : Client) (b : Bucket)
      → Meets (removal lib (GoesOn (λ h b. Unit))) h (reconcile_bucket lib mc b)
  unfolding reconcile_bucket
  reconcile_bucket-removal h mc b = ground arith

  reconcile_secret-removal :
      (h : History) (mc : Client) (b : Bucket)
      → Meets (removal lib (GoesOn (λ h b. Unit))) h (reconcile_secret lib mc b)
  unfolding reconcile_secret delete_old_secret find_secret write_secret save_if_changed save_secret
  reconcile_secret-removal h mc b = ground arith

  mark_ready-removal :
      (h : History) (b : Bucket) → Meets (removal lib (λ h' s. Unit)) h (mark_ready lib b)
  unfolding mark_ready
  mark_ready-removal h b = ground arith

  stopped-removal :
      (h : History) (s : Step Bucket) (reason : String)
      → Meets (removal lib (λ h' s. Unit)) h (stopped lib s reason)
  unfolding stopped
  stopped-removal h s reason = ground arith

  reconcile_resources-removal :
      (h : History) (mc : Client) (b : Bucket)
      → Meets (removal lib (λ h' s. Unit)) h (reconcile_resources lib mc b)
  reconcile_resources-removal h mc b =
      reconcile_resources-Meets lib (removal lib (λ h' s. Unit)) (λ h b. Unit) (λ h b. Unit)
        (λ h b. Unit) h mc b (reconcile_account-removal h b)
        (λ h b _. reconcile_bucket-removal h mc b) (λ h b _. reconcile_secret-removal h mc b)
        (λ h b _. mark_ready-removal h b) stopped-removal

  reconcile_with_provider-removal :
      (h : History) (b : Bucket)
      → Meets (removal lib (λ h' s. Unit)) h (reconcile_with_provider lib b)
  unfolding reconcile_with_provider failed new_client
  reconcile_with_provider-removal h b = (
    tt,
    elim [
      | err e ↦ ground arith
      | ok p ↦
          Meets-seq (removal lib (λ h' s. Unit)) (λ h' c. Unit) _ (new_client lib p) _
            (ground arith)
            λ h'. elim [
              | err e ↦ λ _. ground arith
              | ok mc ↦ λ _. reconcile_resources-removal h' mc b
            ]
    ],
  )

  reconcile_spec-removal :
      (h : History) (b : Bucket) → Meets (removal lib (λ h' s. Unit)) h (reconcile_spec lib b)
  unfolding reconcile_spec set_default_provider default_provider failed mark_creating
  reconcile_spec-removal h b = ground (arith, reconcile_with_provider-removal h b)

  reconcile_object-removal :
      (h : History) (b : Bucket)
      → fetched_bucket h ≡ some b
      → Meets (removal lib (λ h' s. Unit)) h (reconcile_object lib b)
  unfolding reconcile_object
  reconcile_object-removal h b f =
      ground (arith, reconcile_deleted-removal h b f, reconcile_spec-removal h b)

  -- Whatever the server and MinIO reply to a pass over a bucket, MinIO is told to remove a bucket with
  -- its contents only where the bucket that the pass fetched first has that name, is being deleted,
  -- is marked so, and has the policy `Delete`. It is told to remove an empty bucket only where the
  -- pass had made it.
  pub reconcile-removal :
      (key : NamespacedName) → Meets (removal lib (λ h' s. Unit)) [] (reconcile lib key)
  unfolding reconcile
  reconcile-removal key = (
    tt,
    elim [
      | err e ↦ ground arith
      | ok b ↦ reconcile_object-removal ((get_bucket key, ok b) ∷ []) b refl
    ],
  )
