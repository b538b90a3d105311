-- ===== src/Controllers/Provider/Rule.antt =====
-- controllers/bucketprovider_controller.go: the rule for `newClient`, which only reads secrets.
use minio_bucket_controller.Base.{◌∷◌, some, arith}
use minio_bucket_controller.Errors.{Result, ok, err}
use minio_bucket_controller.Api.Meta.{NamespacedName}
use minio_bucket_controller.Api.Provider.{BucketProvider, SecretRef}
use minio_bucket_controller.Api.Secret.{Secret}
use minio_bucket_controller.Libraries.{Libraries}
use minio_bucket_controller.Program.{get_secret}
use minio_bucket_controller.Program.Contract.{History, Contract, Meets, returning, Meets-seq}
use minio_bucket_controller.Controllers.SecretRef.{fetch_secret_ref}
use minio_bucket_controller.Controllers.Provider.{new_client}

module _ {B : Type 0} (lib : Libraries) (C : Contract B) (I : History → Type 0) where
  -- Secrets may be read, and what holds before a read holds after it.
  abbrev pub Readable : Type 0
  Readable =
      (k : NamespacedName) (h : History)
      → I h
      → C.may_call h (get_secret k) × ((r : Result Secret) → I ((get_secret k, r) ∷ h))

  fetch_secret_ref-Meets :
      Readable
      → (ref : SecretRef) (h : History) → I h
      → Meets (returning C (λ h r. I h)) h (fetch_secret_ref lib (some ref))
  unfolding fetch_secret_ref
  fetch_secret_ref-Meets reads ref h i =
      let read = reads (record { namespace = ref.namespace; name = ref.name }) h i in
      (
        read.0,
        elim [ err e ↦ read.1 (err e) | ok s ↦ let kept = read.1 (ok s) in ground (arith, kept) ],
      )

  pub new_client-Meets :
      Readable
      → (p : BucketProvider) (h : History) → I h
      → Meets (returning C (λ h c. I h)) h (new_client lib p)
  unfolding new_client
  new_client-Meets reads p h i =
      Meets-seq (returning C (λ h c. I h)) (λ h r. I h) h
        (fetch_secret_ref lib (some p.spec.access_key)) _
        (fetch_secret_ref-Meets reads p.spec.access_key h i)
        λ h1. elim [
          | err e ↦ λ i1. i1
          | ok access ↦ λ i1.
              Meets-seq (returning C (λ h c. I h)) (λ h r. I h) h1
                (fetch_secret_ref lib (some p.spec.secret_key)) _
                (fetch_secret_ref-Meets reads p.spec.secret_key h1 i1)
                λ h2. elim [ err e ↦ λ i2. i2 | ok secret ↦ λ i2. i2 ]
        ]
