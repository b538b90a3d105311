-- ===== src/Controllers/Bucket/Reconcile/Success.antt =====
-- controllers/bucket_controller.go: a pass in an environment that lets it go on, up to `Ready`.
use minio_bucket_controller.Base.{
  String, ◌≡◌, sym, ◌∙◌, true, false, [], none, some, All, inl, inr, Bool-cases,
}
use mathlib.Core.Path.{subst}
use mathlib.Core.Bool.{false≢true}
use minio_bucket_controller.Errors.{ok, err}
use minio_bucket_controller.Api.Meta.{NamespacedName}
use minio_bucket_controller.Api.Bucket.{Bucket, bucket_condition_ready}
use minio_bucket_controller.Api.Provider.{BucketProvider}
use minio_bucket_controller.Libraries.{Libraries}
use minio_bucket_controller.Libraries.Laws.{EqualityLaws}
use minio_bucket_controller.Mc.Client.{Client}
use minio_bucket_controller.Program.{Program, get_bucket, get_provider}
use minio_bucket_controller.Program.Contract.{History, Meets, Meets-seq}
use minio_bucket_controller.Program.Relies.{AllHelpful, relies, Meets-given, Meets-replied}
use minio_bucket_controller.Controllers.Provider.Connects.{HasClients, Answers, new_client-relies}
use minio_bucket_controller.Controllers.Status.{Reconciled, Step}
use minio_bucket_controller.Controllers.Provider.{new_client}
use minio_bucket_controller.Controllers.Bucket.Resources.{
  reconcile_bucket, reconcile_service_account,
}
use minio_bucket_controller.Controllers.Bucket.Credentials.{reconcile_secret}
use minio_bucket_controller.Controllers.Bucket.Reconcile.{mark_ready, reconcile_resources}
use minio_bucket_controller.Controllers.Bucket.Reconcile.Helpful.{IsPrepared, IsTemplate, Helpful}
use minio_bucket_controller.Program.Contract.{returning, Meets-mono}
use minio_bucket_controller.Controllers.Bucket.Reconcile.Steps.{
  last_phase, GoesOn, Stays, reconcile_account-Stays, reconcile_bucket-Stays, mark_ready-last_phase,
  reconcile_secret-GoesOn,
}
use minio_bucket_controller.Controllers.Bucket.Reconcile.Rule.{Ends, reconcile_resources-Ends}
use minio_bucket_controller.Controllers.Bucket.Failure.{stopped}
use minio_bucket_controller.Controllers.Bucket.Reconcile.{
  reconcile_with_provider, reconcile_spec, reconcile_object, reconcile,
}

module _ (lib : Libraries) (b : Bucket) (p : BucketProvider) (wanted : String) where
  abbrev pub Success : History → Reconciled → Type 0
  Success h r =
      (last_phase h ≡ some bucket_condition_ready)
      × (r ≡ record { requeue_after = 0; error = none })

  abbrev Given : (Bucket → Type 0) → History → Bucket → Type 0
  Given P h b' = AllHelpful (Helpful lib b p wanted) h → P b'

  abbrev IsUnready : Bucket → Type 0
  IsUnready b' = lib.is_status_condition_true b'.status.conditions bucket_condition_ready ≡ false

  abbrev Unhelpful : History → Type 0
  Unhelpful h = ¬ AllHelpful (Helpful lib b p wanted) h

  -- A step that goes on where each reply is helpful, as the rule of the chain takes it.
  step-Ends :
      (P : Bucket → Type 0) (h : History) (m : Program (Step Bucket))
      → Meets (relies (Helpful lib b p wanted) (λ h s. (s.done ≡ true) × P s.object)) h m
      → Meets (returning (relies (Helpful lib b p wanted) Success) (Ends (Given P) Unhelpful)) h m
  step-Ends P h m q =
      Meets-mono (relies (Helpful lib b p wanted) (λ h s. (s.done ≡ true) × P s.object))
        (returning (relies (Helpful lib b p wanted) Success) (Ends (Given P) Unhelpful)) h m
        (λ h c i. i)
        (λ h s i. elim (Bool-cases s.done) [
          | inl done ↦ rw done (λ helpful. (i helpful).1)
          | inr stopped ↦ rw stopped (λ helpful. false≢true (sym stopped ∙ (i helpful).0))
        ])
        (λ h i. i) q

  module _ (laws : EqualityLaws lib) (prepared : IsPrepared lib b wanted)
      (templates : All (IsTemplate lib) b.spec.secret_template) (clients : HasClients lib p) where
    reconcile_bucket-Ends :
        (h : History) (mc : Client) (b' : Bucket)
        → Given (λ b'. b' ≡ b) h b'
        → Meets
            (returning
              (relies (Helpful lib b p wanted) Success)
              (Ends (Given (λ b'. b' ≡ b)) Unhelpful))
            h
            (reconcile_bucket lib mc b')
    reconcile_bucket-Ends h mc b' q =
        step-Ends (λ b'. b' ≡ b) h (reconcile_bucket lib mc b')
          (Meets-given (Helpful lib b p wanted) (Stays lib b p wanted) h
            (reconcile_bucket lib mc b')
            λ helpful.
              subst
                (λ x.
                  Meets (relies (Helpful lib b p wanted) (Stays lib b p wanted)) h
                    (reconcile_bucket lib mc x))
                (sym (q helpful))
                (reconcile_bucket-Stays lib b p wanted prepared.endpoint h mc
                  prepared.endpoint_there))

    reconcile_secret-Ends :
        (h : History) (mc : Client) (b' : Bucket)
        → Given (λ b'. b' ≡ b) h b'
        → Meets
            (returning (relies (Helpful lib b p wanted) Success) (Ends (Given IsUnready) Unhelpful))
            h
            (reconcile_secret lib mc b')
    reconcile_secret-Ends h mc b' q = step-Ends IsUnready h (reconcile_secret lib mc b') (
        Meets-given (Helpful lib b p wanted) (GoesOn lib b p wanted) h (reconcile_secret lib mc b')
          λ helpful.
            subst
              (λ x.
                Meets (relies (Helpful lib b p wanted) (GoesOn lib b p wanted)) h
                  (reconcile_secret lib mc x))
              (sym (q helpful))
              (reconcile_secret-GoesOn lib b p wanted h mc prepared.secret_named templates
                prepared.not_ready))

    reconcile_resources-Success :
        (h : History) (mc : Client)
        → Meets (relies (Helpful lib b p wanted) Success) h (reconcile_resources lib mc b)
    reconcile_resources-Success h mc =
        reconcile_resources-Ends lib (relies (Helpful lib b p wanted) Success)
          (Given (λ b'. b' ≡ b)) (Given (λ b'. b' ≡ b)) (Given IsUnready) Unhelpful h mc b
          (step-Ends (λ b'. b' ≡ b) h (reconcile_service_account lib b)
            (reconcile_account-Stays lib b p wanted laws h))
          (λ h b' q. reconcile_bucket-Ends h mc b' q) (λ h b' q. reconcile_secret-Ends h mc b' q)
          (λ h b' q.
            Meets-given (Helpful lib b p wanted) Success h (mark_ready lib b')
              λ helpful. mark_ready-last_phase lib b p wanted h b' (q helpful))
          (λ h s reason q.
            Meets-given (Helpful lib b p wanted) Success h (stopped lib s reason)
              λ helpful. absurd (q helpful))

    reconcile_with_provider-Success :
        (h : History)
        → Meets (relies (Helpful lib b p wanted) Success) h (reconcile_with_provider lib b)
    unfolding reconcile_with_provider
    reconcile_with_provider-Success h =
        Meets-replied (Helpful lib b p wanted) Success h (get_provider _) _ (ok p) (λ r e. e)
          (Meets-seq (relies (Helpful lib b p wanted) Success) (Answers (Helpful lib b p wanted)) _
            (new_client lib p) _
            (new_client-relies (Helpful lib b p wanted) lib p _ clients (λ k r q. q.0))
            λ h1. elim [
              | err e ↦ λ q.
                  Meets-given (Helpful lib b p wanted) Success h1 _
                    λ helpful. absurd (false≢true (q helpful))
              | ok mc ↦ λ q. reconcile_resources-Success h1 mc
            ])

    reconcile_object-Success :
        (h : History) → Meets (relies (Helpful lib b p wanted) Success) h (reconcile_object lib b)
    unfolding reconcile_object reconcile_spec
    reconcile_object-Success h =
        simp
          (
            reconcile_object, reconcile_spec, prepared.alive, prepared.finalizer_there,
            prepared.provider_named, prepared.secret_named, prepared.policy_there,
            prepared.conditions_there,
          )
          (reconcile_with_provider-Success h)

    pub reconcile-Success :
        (key : NamespacedName)
        → Meets (relies (Helpful lib b p wanted) Success) [] (reconcile lib key)
    unfolding reconcile
    reconcile-Success key =
        Meets-replied (Helpful lib b p wanted) Success [] (get_bucket key) _ (ok b) (λ r e. e)
          (reconcile_object-Success _)
