-- ===== src/Controllers/Bucket/Reconcile/Completion.antt =====
-- controllers/bucket_controller.go: what the passes over a bucket complete in it, one part each.
use minio_bucket_controller.Base.{
  ℕ, ◌+◌, ◌<◌, String, ◌≡◌, refl, ◌==◌, eq_iff, Bool, true, false, not, ◌⊎◌, List, [], ◌∷◌, Option,
  none, some, contains, is_some, arith,
}
use minio_bucket_controller.Errors.{Error, ok, err}
use minio_bucket_controller.Api.Meta.{NamespacedName, is_zero}
use minio_bucket_controller.Api.Bucket.{Bucket}
use minio_bucket_controller.Libraries.{Libraries}
use minio_bucket_controller.Libraries.Laws.{FinalizerLaws}
use minio_bucket_controller.Mc.Client.{Client}
use minio_bucket_controller.Program.{Call, get_bucket, update_bucket}
use minio_bucket_controller.Program.Contract.{History, Contract, Meets}
use minio_bucket_controller.Controllers.Status.{finalizer, Step}
use minio_bucket_controller.Controllers.History.{fetched_bucket}
use minio_bucket_controller.Controllers.Provider.{default_provider}
use minio_bucket_controller.Controllers.Bucket.Failure.{stopped}
use minio_bucket_controller.Controllers.Bucket.Deletion.{reconcile_deletion}
use minio_bucket_controller.Controllers.Bucket.Resources.{
  reconcile_bucket, reconcile_service_account,
}
use minio_bucket_controller.Controllers.Bucket.Credentials.{
  reconcile_secret, delete_old_secret, find_secret, write_secret, save_if_changed, save_secret,
}
use minio_bucket_controller.Controllers.Bucket.Reconcile.{
  mark_ready, reconcile_deleted, reconcile_resources, reconcile_with_provider, reconcile_spec,
  reconcile_object, reconcile, set_default_provider, mark_creating, failed, with_finalizers,
}
use minio_bucket_controller.Controllers.Bucket.Reconcile.Rule.{
  GoesOn, reconcile_resources-Meets, reconcile_with_provider-Meets,
}

abbrev count : Bool → ℕ
count true = 1
count false = 0

-- How many parts are missing: the finalizer, the provider, the secret's name and the policy.
abbrev pub missing : Bucket → ℕ
missing b =
    count (not (contains b.metadata.finalizers finalizer))
    + count (b.spec.provider == "")
    + count (not (is_some b.spec.secret_name))
    + count (b.spec.reclaim_policy == "")

-- What a pass over a bucket that stays may write: one with less missing, unless nothing was missing,
-- or the default provider has no name.
abbrev pub Completes : Option Bucket → Bucket → Type 0
Completes none b' = ⊥
Completes (some b) b' =
    (is_zero b.metadata.deletion_timestamp ≡ false)
    ⊎ ((missing b' < missing b) ⊎ ((missing b ≡ 0) ⊎ (b'.spec.provider ≡ "")))

abbrev pub MayCall : History → Call → Type 0
MayCall h (update_bucket b') = Completes (fetched_bucket h) b'
MayCall h c = Unit

abbrev pub completion : {A : Type 0} → (History → A → Type 0) → Contract A
completion P = record { may_call = MayCall; may_return = P; may_halt = λ h. Unit }

-- Nothing is missing in the fetched bucket, or it is being deleted.
abbrev IsFull : Option Bucket → Type 0
IsFull none = ⊥
IsFull (some b) = (is_zero b.metadata.deletion_timestamp ≡ false) ⊎ (missing b ≡ 0)

abbrev Full : History → Bucket → Type 0
Full h b = IsFull (fetched_bucket h)

module _ (lib : Libraries) where
  reconcile_deleted-completion :
      (h : History) (b : Bucket)
      → fetched_bucket h ≡ some b
      → is_zero b.metadata.deletion_timestamp ≡ false
      → Meets (completion (λ h' s. Unit)) h (reconcile_deleted lib b)
  unfolding reconcile_deleted reconcile_deletion
  reconcile_deleted-completion h b f s = ground arith

  reconcile_account-completion :
      (h : History) (b : Bucket)
      → IsFull (fetched_bucket h)
      → Meets (completion (GoesOn Full)) h (reconcile_service_account lib b)
  unfolding reconcile_service_account
  reconcile_account-completion h b p = ground arith

  reconcile_bucket-completion :
      (h : History) (mc : Client) (b : Bucket)
      → IsFull (fetched_bucket h)
      → Meets (completion (GoesOn Full)) h (reconcile_bucket lib mc b)
  unfolding reconcile_bucket
  reconcile_bucket-completion h mc b p = ground arith

  reconcile_secret-completion :
      (h : History) (mc : Client) (b : Bucket)
      → IsFull (fetched_bucket h)
      → Meets (completion (GoesOn Full)) h (reconcile_secret lib mc b)
  unfolding reconcile_secret delete_old_secret find_secret write_secret save_if_changed save_secret
  reconcile_secret-completion h mc b p = ground arith

  mark_ready-completion :
      (h : History) (b : Bucket) → Meets (completion (λ h' s. Unit)) h (mark_ready lib b)
  unfolding mark_ready
  mark_ready-completion h b = ground arith

  failed-completion :
      (h : History) (b : Bucket) (e : Error) (reason : String)
      → Meets (completion (λ h' s. Unit)) h (failed lib b e reason)
  unfolding failed
  failed-completion h b e reason = ground arith

  stopped-completion :
      (h : History) (s : Step Bucket) (reason : String)
      → Meets (completion (λ h' s. Unit)) h (stopped lib s reason)
  unfolding stopped
  stopped-completion h s reason = ground arith

  reconcile_resources-completion :
      (h : History) (mc : Client) (b : Bucket)
      → IsFull (fetched_bucket h)
      → Meets (completion (λ h' s. Unit)) h (reconcile_resources lib mc b)
  reconcile_resources-completion h mc b p =
      reconcile_resources-Meets lib (completion (λ h' s. Unit)) Full Full Full h mc b
        (reconcile_account-completion h b p) (λ h b p. reconcile_bucket-completion h mc b p)
        (λ h b p. reconcile_secret-completion h mc b p) (λ h b p. mark_ready-completion h b)
        stopped-completion

  reconcile_with_provider-completion :
      (h : History) (b : Bucket)
      → IsFull (fetched_bucket h)
      → Meets (completion (λ h' s. Unit)) h (reconcile_with_provider lib b)
  reconcile_with_provider-completion h b p =
      reconcile_with_provider-Meets lib (completion (λ h' s. Unit)) (λ h. IsFull (fetched_bucket h))
        h b (λ k h i. (tt, λ r. i)) (λ k h i. (tt, λ r. i))
        (λ h e reason i. failed-completion h b e reason) (λ h e i. tt)
        (λ h mc i. reconcile_resources-completion h mc b i) p

  Completes-provider :
      (b : Bucket) (n : String)
      → (b.spec.provider == "") ≡ true
      → Completes (some b) (record b { spec = record b.spec { provider = n } })
  Completes-provider b n e = ground (arith, eq_iff n "")

  Completes-finalizer :
      (b : Bucket) (fs : List String)
      → contains b.metadata.finalizers finalizer ≡ false
      → contains fs finalizer ≡ true
      → Completes (some b) (with_finalizers b fs)
  Completes-finalizer b fs e f = ground arith

  set_default-completion :
      (h : History) (b : Bucket)
      → fetched_bucket h ≡ some b
      → (b.spec.provider == "") ≡ true
      → Meets (completion (λ h' s. Unit)) h (set_default_provider lib b)
  unfolding set_default_provider default_provider failed
  set_default-completion h b f e = grind (arith, Completes-provider b)

  -- The passes that complete the spec, with the finalizer in place.
  reconcile_spec-completion :
      (h : History) (b : Bucket)
      → fetched_bucket h ≡ some b
      → contains b.metadata.finalizers finalizer ≡ true
      → Meets (completion (λ h' s. Unit)) h (reconcile_spec lib b)
  unfolding reconcile_spec mark_creating
  reconcile_spec-completion h b f in_place =
      ground (arith, set_default-completion h b f, reconcile_with_provider-completion h b)

  reconcile_object-completion :
      (laws : FinalizerLaws lib) (h : History) (b : Bucket)
      → fetched_bucket h ≡ some b
      → Meets (completion (λ h' s. Unit)) h (reconcile_object lib b)
  unfolding reconcile_object
  reconcile_object-completion laws h b f =
      let added = laws.add_finalizer-updated b.metadata.finalizers finalizer in
      let there = laws.add_finalizer-contains b.metadata.finalizers finalizer in
      ground (
        arith,
        reconcile_deleted-completion h b f,
        reconcile_spec-completion h b f,
        Completes-finalizer b (lib.add_finalizer b.metadata.finalizers finalizer).finalizers,
      )

  pub reconcile-completion :
      (laws : FinalizerLaws lib) (key : NamespacedName)
      → Meets (completion (λ h' s. Unit)) [] (reconcile lib key)
  unfolding reconcile
  reconcile-completion laws key = (
    tt,
    elim [
      | err e ↦ ground arith
      | ok b ↦ reconcile_object-completion laws ((get_bucket key, ok b) ∷ []) b refl
    ],
  )
