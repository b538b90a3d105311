-- ===== src/Controllers/Provider/Checks.antt =====
-- controllers/bucketprovider_controller.go: the calls of a pass over a provider.
use minio_bucket_controller.Base.{
  ◌≡◌, refl, ◌==◌, [], ◌∷◌, Option, none, some, arith, if◌then◌else◌,
}
use minio_bucket_controller.Errors.{ok, err}
use minio_bucket_controller.Api.Meta.{NamespacedName}
use minio_bucket_controller.Api.Provider.{BucketProvider, provider_condition_ready}
use minio_bucket_controller.Libraries.{Libraries}
use minio_bucket_controller.Program.{
  Call, get_provider, get_secret, list_minio_buckets, update_provider_status, record_event, now,
}
use minio_bucket_controller.Program.Contract.{History, Contract, Meets}
use minio_bucket_controller.Controllers.Status.{Reconciled}
use minio_bucket_controller.Controllers.Provider.{reconcile, mark_creating, check_provider}

-- The provider that the run fetched.
abbrev pub fetched_provider : History → Option BucketProvider
fetched_provider [] = none
fetched_provider ((get_provider k, ok p) ∷ h) = elim (fetched_provider h) [
  | none ↦ some p
  | some p' ↦ some p'
]
fetched_provider ((c, r) ∷ h) = fetched_provider h

-- MinIO replied the list of its buckets.
abbrev pub Answered : History → Type 0
Answered [] = ⊥
Answered ((list_minio_buckets mc, ok buckets) ∷ h) = Unit
Answered ((c, r) ∷ h) = Answered h

-- Two providers that differ in their status only.
abbrev pub IsSameBut : Option BucketProvider → BucketProvider → Type 0
IsSameBut none p = ⊥
IsSameBut (some p0) p = (p.metadata ≡ p0.metadata) × (p.spec ≡ p0.spec)

abbrev pub MayCall : History → Call → Type 0
MayCall h (get_provider k) = Unit
MayCall h (get_secret k) = Unit
MayCall h (list_minio_buckets mc) = Unit
MayCall h now = Unit
MayCall h (record_event o type reason message) = Unit
MayCall h (update_provider_status p) =
    IsSameBut (fetched_provider h) p
    × (if p.status.phase == provider_condition_ready then Answered h else Unit)
MayCall h c = ⊥

abbrev pub checks : Contract Reconciled
checks = record { may_call = MayCall; may_return = λ h r. Unit; may_halt = λ h. ⊥ }

module _ (lib : Libraries) where
  check_provider-checks :
      (h : History) (p : BucketProvider)
      → fetched_provider h ≡ some p
      → Meets checks h (check_provider lib p)
  unfolding check_provider
  check_provider-checks h p f = ground arith

  mark_creating-checks :
      (h : History) (p : BucketProvider)
      → fetched_provider h ≡ some p
      → Meets checks h (mark_creating lib p)
  unfolding mark_creating
  mark_creating-checks h p f = ground arith

  -- A pass over a provider writes nothing but the status of the provider that it fetched, and makes
  -- nothing in MinIO, of which it only lists the buckets. It writes the phase `Ready` only after
  -- MinIO replied that list.
  pub reconcile-checks : (key : NamespacedName) → Meets checks [] (reconcile lib key)
  unfolding reconcile
  reconcile-checks key = (
    tt,
    elim [
      | err e ↦ ground arith
      | ok p ↦
          let h : History = (get_provider key, ok p) ∷ [] in
          ground (arith, check_provider-checks h p refl, mark_creating-checks h p refl)
    ],
  )
