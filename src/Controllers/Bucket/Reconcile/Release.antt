-- ===== src/Controllers/Bucket/Reconcile/Release.antt =====
-- controllers/bucket_controller.go: when a pass writes a bucket that is being deleted.
use minio_bucket_controller.Errors.{ok, err}
use minio_bucket_controller.Program.{Call, get_bucket, update_bucket}
use minio_bucket_controller.Controllers.Provider.{new_client, default_provider}
use minio_bucket_controller.Base.{
  refl, String, ◌≡◌, true, false, ◌==◌, ◌⊎◌, inl, inr, Bool-cases, Option, none, some, [], ◌∷◌,
  arith,
}
use minio_bucket_controller.Api.Meta.{NamespacedName, is_zero}
use minio_bucket_controller.Api.Bucket.{Bucket, bucket_reclaim_delete, bucket_condition_deleting}
use minio_bucket_controller.Libraries.{Libraries}
use minio_bucket_controller.Mc.Client.{Client}
use minio_bucket_controller.Program.Contract.{History, Contract, Meets, Meets-seq}
use minio_bucket_controller.Controllers.Status.{Step, finalizer}
use minio_bucket_controller.Controllers.History.{fetched_bucket, Removed, ProviderGone}
use minio_bucket_controller.Controllers.Bucket.Failure.{stopped}
use minio_bucket_controller.Controllers.Bucket.Deletion.{reconcile_deletion}
use minio_bucket_controller.Controllers.Bucket.Resources.{
  reconcile_bucket, reconcile_service_account,
}
use minio_bucket_controller.Controllers.Bucket.Credentials.{
  reconcile_secret, delete_old_secret, find_secret, write_secret, save_if_changed, save_secret,
}
use minio_bucket_controller.Controllers.Bucket.Reconcile.{
  with_finalizers, mark_ready, reconcile_deleted, reconcile_resources, reconcile_with_provider,
  reconcile_spec, reconcile_object, reconcile, set_default_provider, mark_creating, failed,
}
use minio_bucket_controller.Controllers.Bucket.Reconcile.Rule.{GoesOn, reconcile_resources-Meets}

module _ (lib : Libraries) where
  -- What may be written over a bucket that is being deleted: the same bucket without the
  -- finalizer, once it is marked, and removed from MinIO if its policy says so and its provider is
  -- still there.
  abbrev pub Released : Bucket → Bucket → History → Type 0
  Released b b' h =
      (b' ≡ with_finalizers b (lib.remove_finalizer b.metadata.finalizers finalizer))
      × (lib.is_status_condition_true b.status.conditions bucket_condition_deleting ≡ true)
      × (((b.spec.reclaim_policy == bucket_reclaim_delete) ≡ false)
          ⊎ (Removed b.metadata.name h ⊎ ProviderGone b.spec.provider h))

  abbrev pub MayWrite : Option Bucket → Bucket → History → Type 0
  MayWrite none b' h = ⊥
  MayWrite (some b) b' h = (is_zero b.metadata.deletion_timestamp ≡ true) ⊎ Released b b' h

  abbrev pub MayRelease : History → Call → Type 0
  MayRelease h (update_bucket b') = MayWrite (fetched_bucket h) b' h
  MayRelease h c = Unit

  abbrev pub release : {A : Type 0} → (History → A → Type 0) → Contract A
  release P = record { may_call = MayRelease; may_return = P; may_halt = λ h. Unit }

  -- The bucket that was fetched stays.
  abbrev Stays : History → Bucket → Type 0
  Stays h b =
      (b0 : Bucket) × (fetched_bucket h ≡ some b0) × (is_zero b0.metadata.deletion_timestamp ≡ true)

  reconcile_deleted-release :
      (h : History) (b : Bucket)
      → fetched_bucket h ≡ some b
      → Meets (release (λ h' s. Unit)) h (reconcile_deleted lib b)
  unfolding reconcile_deleted reconcile_deletion
  reconcile_deleted-release h b f = ground arith

  reconcile_account-release :
      (h : History) (b : Bucket)
      → Stays h b
      → Meets (release (GoesOn Stays)) h (reconcile_service_account lib b)
  unfolding reconcile_service_account
  reconcile_account-release h b st = ground arith

  reconcile_bucket-release :
      (h : History) (mc : Client) (b : Bucket)
      → Stays h b
      → Meets (release (GoesOn Stays)) h (reconcile_bucket lib mc b)
  unfolding reconcile_bucket
  reconcile_bucket-release h mc b st = ground arith

  reconcile_secret-release :
      (h : History) (mc : Client) (b : Bucket)
      → Meets (release (GoesOn (λ h b. Unit))) h (reconcile_secret lib mc b)
  unfolding reconcile_secret delete_old_secret find_secret write_secret save_if_changed save_secret
  reconcile_secret-release h mc b = ground arith

  mark_ready-release :
      (h : History) (b : Bucket) → Meets (release (λ h' s. Unit)) h (mark_ready lib b)
  unfolding mark_ready
  mark_ready-release h b = ground arith

  stopped-release :
      (h : History) (s : Step Bucket) (reason : String)
      → Meets (release (λ h' s. Unit)) h (stopped lib s reason)
  unfolding stopped
  stopped-release h s reason = ground arith

  reconcile_resources-release :
      (h : History) (mc : Client) (b : Bucket)
      → Stays h b
      → Meets (release (λ h' s. Unit)) h (reconcile_resources lib mc b)
  reconcile_resources-release h mc b st =
      reconcile_resources-Meets lib (release (λ h' s. Unit)) Stays Stays (λ h b. Unit) h mc b
        (reconcile_account-release h b st) (λ h b p. reconcile_bucket-release h mc b p)
        (λ h b _. reconcile_secret-release h mc b) (λ h b _. mark_ready-release h b) stopped-release

  reconcile_with_provider-release :
      (h : History) (b : Bucket)
      → Stays h b
      → Meets (release (λ h' s. Unit)) h (reconcile_with_provider lib b)
  unfolding reconcile_with_provider failed new_client
  reconcile_with_provider-release h b st = (
    tt,
    elim [
      | err e ↦ ground arith
      | ok p ↦
          Meets-seq (release (λ h' s. Unit)) (λ h' c. Stays h' b) _ (new_client lib p) _
            (ground arith)
            λ h'. elim [
              | err e ↦ λ _. ground arith
              | ok mc ↦ λ st'. reconcile_resources-release h' mc b st'
            ]
    ],
  )

  reconcile_spec-release :
      (h : History) (b : Bucket)
      → Stays h b
      → Meets (release (λ h' s. Unit)) h (reconcile_spec lib b)
  unfolding reconcile_spec set_default_provider default_provider failed mark_creating
  reconcile_spec-release h b st = ground (arith, reconcile_with_provider-release h b st)

  reconcile_object-release :
      (h : History) (b : Bucket)
      → fetched_bucket h ≡ some b
      → Meets (release (λ h' s. Unit)) h (reconcile_object lib b)
  unfolding reconcile_object
  reconcile_object-release h b f = elim (Bool-cases (is_zero b.metadata.deletion_timestamp)) [
    | inl stays ↦ ground (arith, reconcile_spec-release h b (b, f, stays))
    | inr deleted ↦ ground (arith, reconcile_deleted-release h b f)
  ]

  -- Where the bucket that a pass fetched first is being deleted, the pass writes it only as the
  -- fetched bucket without the finalizer, after it was marked, and only where its policy is not
  -- `Delete`, or it was removed from MinIO in this pass, or the server replied that the
  -- provider that its spec names is not there. Before a bucket was fetched none is written.
  pub reconcile-release :
      (key : NamespacedName) → Meets (release (λ h' s. Unit)) [] (reconcile lib key)
  unfolding reconcile
  reconcile-release key = (
    tt,
    elim [
      | err e ↦ ground arith
      | ok b ↦ reconcile_object-release ((get_bucket key, ok b) ∷ []) b refl
    ],
  )
