-- ===== src/Controllers/Bucket/Reconcile/Rule.antt =====
-- The rule for the chain of steps in `Reconcile`: a contract is kept if each step keeps it from
-- where the step before went on.
use minio_bucket_controller.Base.{String, ◌≡◌, ◌∷◌, Bool, true, false, not, some}
use minio_bucket_controller.Errors.{Error, Result, ok, err, is_not_found}
use minio_bucket_controller.Api.Meta.{NamespacedName}
use minio_bucket_controller.Api.Provider.{BucketProvider}
use minio_bucket_controller.Program.{get_provider}
use minio_bucket_controller.Controllers.Provider.{new_client}
use minio_bucket_controller.Controllers.Provider.Rule.{Readable, new_client-Meets}
use minio_bucket_controller.Api.Bucket.{Bucket}
use minio_bucket_controller.Libraries.{Libraries}
use minio_bucket_controller.Mc.Client.{Client}
use minio_bucket_controller.Program.Contract.{
  History, Contract, Meets, returning, Meets-seq, Meets-if,
}
use minio_bucket_controller.Controllers.Status.{Reconciled, Step}
use minio_bucket_controller.Controllers.Bucket.Failure.{stopped}
use minio_bucket_controller.Controllers.Bucket.Resources.{
  reconcile_bucket, reconcile_service_account,
}
use minio_bucket_controller.Controllers.Bucket.Credentials.{reconcile_secret}
use minio_bucket_controller.Controllers.Bucket.Reconcile.{
  mark_ready, reconcile_resources, failed, reconcile_with_provider,
}

abbrev Chooses : Bool → Type 0 → Type 0 → Type 0
Chooses true P Q = P
Chooses false P Q = Q

-- What holds where a step went on, and where it did not.
abbrev pub Ends : (History → Bucket → Type 0) → (History → Type 0) → History → Step Bucket → Type 0
Ends P Q h s = Chooses s.done (P h s.object) (Q h)

-- What a step returned, where it went on.
abbrev pub GoesOn : (History → Bucket → Type 0) → History → Step Bucket → Type 0
GoesOn P = Ends P (λ h. Unit)

take_true : (P Q : Type 0) (b : Bool) → not b ≡ false → Chooses b P Q → P
take_true P Q true e p = p
take_true P Q false e p = cc

take_false : (P Q : Type 0) (b : Bool) → not b ≡ true → Chooses b P Q → Q
take_false P Q true e p = cc
take_false P Q false e p = p

module _ (lib : Libraries) where
  pub reconcile_resources-Ends :
      (C : Contract Reconciled) (P1 P2 P3 : History → Bucket → Type 0) (Q : History → Type 0)
      (h : History) (mc : Client) (b : Bucket)
      → Meets (returning C (Ends P1 Q)) h (reconcile_service_account lib b)
      → ((h : History) (b : Bucket)
          → P1 h b
          → Meets (returning C (Ends P2 Q)) h (reconcile_bucket lib mc b))
      → ((h : History) (b : Bucket)
          → P2 h b
          → Meets (returning C (Ends P3 Q)) h (reconcile_secret lib mc b))
      → ((h : History) (b : Bucket) → P3 h b → Meets C h (mark_ready lib b))
      → ((h : History) (s : Step Bucket) (reason : String) → Q h → Meets C h (stopped lib s reason))
      → Meets C h (reconcile_resources lib mc b)
  unfolding reconcile_resources
  reconcile_resources-Ends C P1 P2 P3 Q h mc b m1 m2 m3 m4 stops =
      Meets-seq C (Ends P1 Q) h (reconcile_service_account lib b) _ m1 λ h1 s1 p1.
        Meets-if C h1 (not s1.done) _ _ (λ d1. stops h1 s1 _ (take_false _ _ s1.done d1 p1))
          λ d1.
            Meets-seq C (Ends P2 Q) h1 (reconcile_bucket lib mc s1.object) _
              (m2 h1 s1.object (take_true _ _ s1.done d1 p1))
              λ h2 s2 p2.
                Meets-if C h2 (not s2.done) _ _ (λ d2. stops h2 s2 _ (take_false _ _ s2.done d2 p2))
                  λ d2.
                    Meets-seq C (Ends P3 Q) h2 (reconcile_secret lib mc s2.object) _
                      (m3 h2 s2.object (take_true _ _ s2.done d2 p2))
                      λ h3 s3 p3.
                        Meets-if C h3 (not s3.done) _ _
                          (λ d3. stops h3 s3 _ (take_false _ _ s3.done d3 p3))
                          λ d3. m4 h3 s3.object (take_true _ _ s3.done d3 p3)

  pub reconcile_resources-Meets :
      (C : Contract Reconciled) (P1 P2 P3 : History → Bucket → Type 0) (h : History) (mc : Client)
      (b : Bucket)
      → Meets (returning C (GoesOn P1)) h (reconcile_service_account lib b)
      → ((h : History) (b : Bucket)
          → P1 h b
          → Meets (returning C (GoesOn P2)) h (reconcile_bucket lib mc b))
      → ((h : History) (b : Bucket)
          → P2 h b
          → Meets (returning C (GoesOn P3)) h (reconcile_secret lib mc b))
      → ((h : History) (b : Bucket) → P3 h b → Meets C h (mark_ready lib b))
      → ((h : History) (s : Step Bucket) (reason : String) → Meets C h (stopped lib s reason))
      → Meets C h (reconcile_resources lib mc b)
  reconcile_resources-Meets C P1 P2 P3 h mc b m1 m2 m3 m4 stops =
      reconcile_resources-Ends C P1 P2 P3 (λ h. Unit) h mc b m1 m2 m3 m4
        λ h s reason q. stops h s reason

  -- The provider and its client are read first: what holds before holds where the resources start.
  pub reconcile_with_provider-Meets :
      (C : Contract Reconciled) (I : History → Type 0) (h : History) (b : Bucket)
      → Readable lib C I
      → ((k : NamespacedName) (h : History)
          → I h
          → C.may_call h (get_provider k)
            × ((r : Result BucketProvider) → I ((get_provider k, r) ∷ h)))
      → ((h : History) (e : Error) (reason : String) → I h → Meets C h (failed lib b e reason))
      → ((h : History) (e : Error)
          → I h
          → C.may_return h (record { requeue_after = 0; error = some e }))
      → ((h : History) (mc : Client) → I h → Meets C h (reconcile_resources lib mc b))
      → I h
      → Meets C h (reconcile_with_provider lib b)
  unfolding reconcile_with_provider
  reconcile_with_provider-Meets C I h b reads asks fails returns rest i =
      let asked = asks (record { namespace = ""; name = b.spec.provider }) h i in
      (
        asked.0,
        elim [
          | err e ↦
              Meets-if C _ (is_not_found e) _ _ (λ _. fails _ _ _ (asked.1 (err e)))
                (λ _. returns _ e (asked.1 (err e)))
          | ok p ↦
              Meets-seq C (λ h c. I h) _ (new_client lib p) _
                (new_client-Meets lib C I reads p _ (asked.1 (ok p)))
                λ h'. elim [ err e ↦ λ i'. fails h' _ _ i' | ok mc ↦ λ i'. rest h' mc i' ]
        ],
      )
