-- ===== src/Controllers/Bucket/Reconcile/Helpful.antt =====
-- controllers/bucket_controller.go: an environment in which a pass has nothing to wait for.
use minio_bucket_controller.Base.{Bool, String, ◌<>◌, ◌==◌, ◌≡◌, true, false, some, is_empty}
use minio_bucket_controller.Errors.{Result, ok, err, is_not_found}
use minio_bucket_controller.Api.Meta.{ObjectMeta, NamespacedName, named, is_zero}
use minio_bucket_controller.Api.Bucket.{Bucket, BucketAccess, bucket_condition_ready}
use minio_bucket_controller.Api.Provider.{BucketProvider}
use minio_bucket_controller.Api.Secret.{Secret}
use minio_bucket_controller.Api.Object.{bucket, account}
use minio_bucket_controller.Libraries.{Libraries}
use minio_bucket_controller.Program.{
  Call, Reply, get_bucket, get_provider, get_account, get_secret, bucket_exists, create_secret,
  update_secret, delete_secret, update_bucket_status,
}
use minio_bucket_controller.Program.Relies.{is_ok}
use minio_bucket_controller.Controllers.Provider.Connects.{HasKeys}
use minio_bucket_controller.Controllers.Status.{finalizer, sa_secret_suffix}
use minio_bucket_controller.Controllers.OwnerRef.{force_controller_reference}

abbrev pub account_place : Bucket → NamespacedName
account_place b = record {
  namespace = b.metadata.namespace;
  name = b.spec.service_account <> sa_secret_suffix;
}

module _ (lib : Libraries) where
  -- A bucket that nobody deletes, with everything that earlier passes fill in, and not yet ready.
  pub record IsPrepared (b : Bucket) (wanted : String) : Type 0 where
    pub alive : is_zero b.metadata.deletion_timestamp ≡ true
    pub finalizer_there : (lib.add_finalizer b.metadata.finalizers finalizer).updated ≡ false
    pub provider_named : (b.spec.provider == "") ≡ false
    pub secret_named : b.spec.secret_name ≡ some wanted
    pub policy_there : (b.spec.reclaim_policy == "") ≡ false
    pub conditions_there : is_empty b.status.conditions ≡ false
    pub endpoint : String
    pub endpoint_there : b.status.endpoint ≡ some endpoint
    pub not_ready : lib.is_status_condition_true b.status.conditions bucket_condition_ready ≡ false

  abbrev pub is_ready : Bucket → Bool
  is_ready b = lib.is_status_condition_true b.status.conditions bucket_condition_ready

  -- The template is parsed, and executed for every access.
  abbrev pub IsTemplate : String × String → Type 0
  IsTemplate t =
      (is_ok (lib.parse_template t.1) ≡ true)
      × ((a : BucketAccess) → is_ok (lib.execute_template t.1 a) ≡ true)

  -- The bucket may become the controller of the secret with this metadata.
  abbrev pub IsAdoptable : Bucket → ObjectMeta → Type 0
  IsAdoptable b m =
      is_ok (lib.set_controller_reference (bucket b) (record m { labels = b.metadata.labels }))
      ≡ true

  module _ (b : Bucket) (p : BucketProvider) (wanted : String) where
    abbrev pub wanted_place : NamespacedName
    wanted_place = record { namespace = b.metadata.namespace; name = wanted }

    -- Only the bucket's own secret may be missing; the bucket may control it.
    abbrev pub IsSecret : NamespacedName → Result Secret → Type 0
    IsSecret k (ok s) = k ≡ wanted_place → IsAdoptable b s.metadata
    IsSecret k (err e) =
        (is_not_found e ≡ true)
        × ¬ (k ≡ account_place b)
        × IsAdoptable b (named wanted b.metadata.namespace)

    -- The reply lets the pass go on.
    abbrev pub Helpful : (c : Call) → Reply c → Type 0
    Helpful (get_bucket k) r = r ≡ ok b
    Helpful (get_provider k) r = r ≡ ok p
    Helpful (get_account k) (ok sa) =
        force_controller_reference lib (account sa) sa.metadata b.metadata ≡ ok b.metadata
    Helpful (get_account k) (err e) = ⊥
    Helpful (get_secret k) r = HasKeys p k r × IsSecret k r
    Helpful (bucket_exists mc n) r = r ≡ ok true
    Helpful (create_secret s) r = is_ok r ≡ true
    Helpful (update_secret s) r = is_ok r ≡ true
    Helpful (delete_secret m) r = is_ok r ≡ true
    Helpful (update_bucket_status b') (ok b'') = is_ready b'' ≡ is_ready b'
    Helpful (update_bucket_status b') (err e) = ⊥
    Helpful c r = Unit
