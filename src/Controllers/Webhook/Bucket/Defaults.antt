-- ===== src/Controllers/Webhook/Bucket/Defaults.antt =====
-- controllers/bucket_webhook.go: `Default`, and what the reconciler fills in.
use minio_bucket_controller.Base.{
  String, ◌≡◌, ◌==◌, refl, not, sym, ◌∙◌, true, false, arith, eq_iff, is_empty, is_some, some,
  if◌then◌else◌, Bool-cases, inl, inr, Option-cases, ap,
}
use mathlib.Core.Bool.{false≢true}
use minio_bucket_controller.Api.Bucket.{Bucket, bucket_reclaim_retain}
use minio_bucket_controller.Api.Meta.{is_zero}
use minio_bucket_controller.Controllers.Status.{finalizer}
use minio_bucket_controller.Libraries.{Libraries}
use minio_bucket_controller.Controllers.Bucket.Reconcile.{
  reconcile_object, reconcile_deleted, update_and_return, with_finalizers, reconcile_spec,
  mark_creating, reconcile_with_provider,
}
use minio_bucket_controller.Controllers.Webhook.Bucket.{fill_defaults, secret_name_or_default}

filled_text : (s t : String) → (t == "") ≡ false → ((if s == "" then t else s) == "") ≡ false
filled_text s t filled = elim (Bool-cases (s == "")) [ inl e ↦ rw e filled | inr e ↦ rw e e ]

secret_name_or_default-is_some : (b : Bucket) → is_some (secret_name_or_default b) ≡ true
secret_name_or_default-is_some b = ground arith

-- Filling in the webhook's defaults that ask nobody twice is filling them in once.
fill_defaults_idem : (b : Bucket) → fill_defaults (fill_defaults b) ≡ fill_defaults b
unfolding fill_defaults
fill_defaults_idem b = ground (arith, eq_iff b.metadata.name "")

module _ (lib : Libraries) where
  reconcile_spec_filled :
      (b : Bucket) (n : String)
      → (b.spec.provider == "") ≡ false
      → (b.spec.reclaim_policy == "") ≡ false
      → b.spec.secret_name ≡ some n
      → reconcile_spec lib b ≡ (
          if is_empty b.status.conditions
          then mark_creating lib b
          else reconcile_with_provider lib b)
  unfolding reconcile_spec
  reconcile_spec_filled b n provided policy named = ground arith

  reconcile_spec-fill_defaults :
      (b : Bucket)
      → (b.spec.provider == "") ≡ false
      → reconcile_spec lib (fill_defaults b) ≡ (
          if is_empty b.status.conditions
          then mark_creating lib (fill_defaults b)
          else reconcile_with_provider lib (fill_defaults b))
  unfolding fill_defaults
  reconcile_spec-fill_defaults b provided = elim (Option-cases (secret_name_or_default b)) [
    | inl missing ↦
        absurd (false≢true (ap is_some (sym missing) ∙ secret_name_or_default-is_some b))
    | inr (n, named) ↦
        reconcile_spec_filled (fill_defaults b) n provided
          (filled_text b.spec.reclaim_policy bucket_reclaim_retain refl) named
  ]

  -- A pass over a bucket that names a provider and has the webhook's other defaults fills in no field
  -- of its spec. Where the bucket is being deleted, the pass goes on as for any such bucket. Else it
  -- writes the finalizer and ends where that is missing, and the bucket is otherwise written as it
  -- is; and where the finalizer is there, it goes on to the first status, if the bucket has no
  -- conditions, or to the provider.
  pub reconcile_object-fill_defaults :
      (b : Bucket)
      → (b.spec.provider == "") ≡ false
      → reconcile_object lib (fill_defaults b) ≡ (
          if not (is_zero b.metadata.deletion_timestamp)
          then reconcile_deleted lib (fill_defaults b)
          else if (lib.add_finalizer b.metadata.finalizers finalizer).updated
          then update_and_return (
              with_finalizers
                (fill_defaults b)
                (lib.add_finalizer b.metadata.finalizers finalizer).finalizers)
          else if is_empty b.status.conditions
          then mark_creating lib (fill_defaults b)
          else reconcile_with_provider lib (fill_defaults b))
  unfolding reconcile_object fill_defaults
  reconcile_object-fill_defaults b provided = rw (reconcile_spec-fill_defaults b provided) refl
