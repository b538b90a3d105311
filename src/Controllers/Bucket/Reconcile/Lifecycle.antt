-- ===== src/Controllers/Bucket/Reconcile/Lifecycle.antt =====
-- controllers/bucket_controller.go: the phases of a bucket, and the passes that move it.
use minio_bucket_controller.Base.{
  String, ◌≡◌, refl, Bool-cases, true, false, ◌⊎◌, inl, inr, [], ◌∷◌, Option, none, some, is_empty,
  arith,
}
use minio_bucket_controller.Errors.{Error, ok, err}
use minio_bucket_controller.Api.Meta.{NamespacedName, is_zero}
use minio_bucket_controller.Api.Bucket.{
  Bucket, bucket_condition_creating, bucket_condition_ready, bucket_condition_error,
  bucket_condition_deleting,
}
use minio_bucket_controller.Libraries.{Libraries}
use minio_bucket_controller.Mc.Client.{Client}
use minio_bucket_controller.Program.{Call, get_bucket, update_bucket_status}
use minio_bucket_controller.Program.Contract.{History, Contract, Meets}
use minio_bucket_controller.Controllers.Status.{Step}
use minio_bucket_controller.Controllers.History.{fetched_bucket}
use minio_bucket_controller.Controllers.Provider.{default_provider}
use minio_bucket_controller.Controllers.Bucket.Failure.{stopped}
use minio_bucket_controller.Controllers.Bucket.Deletion.{reconcile_deletion}
use minio_bucket_controller.Controllers.Bucket.Resources.{
  reconcile_bucket, reconcile_service_account,
}
use minio_bucket_controller.Controllers.Bucket.Credentials.{
  reconcile_secret, delete_old_secret, find_secret, write_secret, save_if_changed, save_secret,
}
use minio_bucket_controller.Controllers.Bucket.Reconcile.{
  mark_ready, reconcile_deleted, reconcile_resources, reconcile_with_provider, reconcile_spec,
  reconcile_object, reconcile, set_default_provider, mark_creating, failed,
}
use minio_bucket_controller.Controllers.Bucket.Reconcile.Rule.{
  Ends, reconcile_resources-Ends, reconcile_with_provider-Meets,
}

-- Where the bucket of a pass stands: new, with no conditions yet; settled, with some; or deleted.
pub data Stage : Type 0 where
  new settled deleted : Stage

abbrev pub stage_of : Bucket → Stage
stage_of b = elim (is_zero b.metadata.deletion_timestamp) [
  | false ↦ deleted
  | true ↦ elim (is_empty b.status.conditions) [ true ↦ new | false ↦ settled ]
]

-- The phases that a pass may go to, from a stage and a phase.
abbrev pub Moves : Stage → String → String → Type 0
Moves new p p' = (p' ≡ bucket_condition_creating) ⊎ (p' ≡ bucket_condition_error)
Moves settled p p' = (p' ≡ p) ⊎ ((p' ≡ bucket_condition_ready) ⊎ (p' ≡ bucket_condition_error))
Moves deleted p p' = p' ≡ bucket_condition_deleting

-- The fetched bucket, where there is one, may move to this phase.
abbrev pub MovesFrom : Option Bucket → Bucket → Type 0
MovesFrom none b = ⊥
MovesFrom (some b0) b = Moves (stage_of b0) b0.status.phase b.status.phase

abbrev pub MayMove : History → Call → Type 0
MayMove h (update_bucket_status b) = MovesFrom (fetched_bucket h) b
MayMove h c = Unit

abbrev pub lifecycle : {A : Type 0} → (History → A → Type 0) → Contract A
lifecycle P = record { may_call = MayMove; may_return = P; may_halt = λ h. Unit }

-- The bucket that was fetched is settled.
abbrev IsSettled : Option Bucket → Type 0
IsSettled none = ⊥
IsSettled (some b) = stage_of b ≡ settled

-- It is, and this bucket has its phase.
abbrev InPhase : Option Bucket → Bucket → Type 0
InPhase none b = ⊥
InPhase (some b0) b = (stage_of b0 ≡ settled) × (b.status.phase ≡ b0.status.phase)

abbrev Settled : History → Type 0
Settled h = IsSettled (fetched_bucket h)

module _ (lib : Libraries) where
  reconcile_deleted-lifecycle :
      (h : History) (b : Bucket)
      → fetched_bucket h ≡ some b
      → stage_of b ≡ deleted
      → Meets (lifecycle (λ h' s. Unit)) h (reconcile_deleted lib b)
  unfolding reconcile_deleted reconcile_deletion
  reconcile_deleted-lifecycle h b f s = ground arith

  reconcile_account-lifecycle :
      (h : History) (b : Bucket)
      → InPhase (fetched_bucket h) b
      → Meets
          (lifecycle (Ends (λ h b. InPhase (fetched_bucket h) b) Settled))
          h
          (reconcile_service_account lib b)
  unfolding reconcile_service_account
  reconcile_account-lifecycle h b p = ground arith

  reconcile_bucket-lifecycle :
      (h : History) (mc : Client) (b : Bucket)
      → InPhase (fetched_bucket h) b
      → Meets
          (lifecycle (Ends (λ h b. InPhase (fetched_bucket h) b) Settled))
          h
          (reconcile_bucket lib mc b)
  unfolding reconcile_bucket
  reconcile_bucket-lifecycle h mc b p = ground arith

  reconcile_secret-lifecycle :
      (h : History) (mc : Client) (b : Bucket)
      → InPhase (fetched_bucket h) b
      → Meets (lifecycle (Ends (λ h b. Settled h) Settled)) h (reconcile_secret lib mc b)
  unfolding reconcile_secret delete_old_secret find_secret write_secret save_if_changed save_secret
  reconcile_secret-lifecycle h mc b p = ground arith

  mark_ready-lifecycle :
      (h : History) (b : Bucket)
      → IsSettled (fetched_bucket h)
      → Meets (lifecycle (λ h' s. Unit)) h (mark_ready lib b)
  unfolding mark_ready
  mark_ready-lifecycle h b p = ground arith

  failed-lifecycle :
      (h : History) (b : Bucket) (e : Error) (reason : String)
      → Settled h
      → Meets (lifecycle (λ h' s. Unit)) h (failed lib b e reason)
  unfolding failed
  failed-lifecycle h b e reason p = ground arith

  stopped-lifecycle :
      (h : History) (s : Step Bucket) (reason : String)
      → Settled h
      → Meets (lifecycle (λ h' s. Unit)) h (stopped lib s reason)
  unfolding stopped
  stopped-lifecycle h s reason p = ground arith

  reconcile_resources-lifecycle :
      (h : History) (mc : Client) (b : Bucket)
      → InPhase (fetched_bucket h) b
      → Meets (lifecycle (λ h' s. Unit)) h (reconcile_resources lib mc b)
  reconcile_resources-lifecycle h mc b p =
      reconcile_resources-Ends lib (lifecycle (λ h' s. Unit)) (λ h b. InPhase (fetched_bucket h) b)
        (λ h b. InPhase (fetched_bucket h) b) (λ h b. Settled h) Settled h mc b
        (reconcile_account-lifecycle h b p) (λ h b p. reconcile_bucket-lifecycle h mc b p)
        (λ h b p. reconcile_secret-lifecycle h mc b p) mark_ready-lifecycle stopped-lifecycle

  InPhase-Settled : (h : History) (b : Bucket) → InPhase (fetched_bucket h) b → Settled h
  InPhase-Settled h b p = ground arith

  reconcile_with_provider-lifecycle :
      (h : History) (b : Bucket)
      → InPhase (fetched_bucket h) b
      → Meets (lifecycle (λ h' s. Unit)) h (reconcile_with_provider lib b)
  reconcile_with_provider-lifecycle h b p =
      reconcile_with_provider-Meets lib (lifecycle (λ h' s. Unit))
        (λ h. InPhase (fetched_bucket h) b) h b (λ k h i. (tt, λ r. i)) (λ k h i. (tt, λ r. i))
        (λ h e reason i. failed-lifecycle h b e reason (InPhase-Settled h b i)) (λ h e i. tt)
        (λ h mc i. reconcile_resources-lifecycle h mc b i) p

  reconcile_spec-lifecycle :
      (h : History) (b : Bucket)
      → fetched_bucket h ≡ some b
      → is_zero b.metadata.deletion_timestamp ≡ true
      → Meets (lifecycle (λ h' s. Unit)) h (reconcile_spec lib b)
  unfolding reconcile_spec set_default_provider default_provider failed mark_creating
  reconcile_spec-lifecycle h b f alive = elim (Bool-cases (is_empty b.status.conditions)) [
    | inl fresh ↦ ground arith
    | inr seen ↦ ground (arith, reconcile_with_provider-lifecycle h b)
  ]

  reconcile_object-lifecycle :
      (h : History) (b : Bucket)
      → fetched_bucket h ≡ some b
      → Meets (lifecycle (λ h' s. Unit)) h (reconcile_object lib b)
  unfolding reconcile_object
  reconcile_object-lifecycle h b f =
      ground (arith, reconcile_deleted-lifecycle h b f, reconcile_spec-lifecycle h b f)

  -- Whatever is replied, a pass writes the status of a bucket only after it fetched one, and only
  -- with a phase that the fetched bucket may move to: a bucket with a deletion time to `Deleting`;
  -- one without conditions to `Creating` or `Error`; any other to `Ready` or `Error`, or it keeps
  -- its phase.
  pub reconcile-lifecycle :
      (key : NamespacedName) → Meets (lifecycle (λ h' s. Unit)) [] (reconcile lib key)
  unfolding reconcile
  reconcile-lifecycle key = (
    tt,
    elim [
      | err e ↦ ground arith
      | ok b ↦ reconcile_object-lifecycle ((get_bucket key, ok b) ∷ []) b refl
    ],
  )
