-- ===== src/Controllers/Account/Reconcile/Helpful.antt =====
-- controllers/bucketserviceaccount_controller.go: an environment in which a pass has nothing to
-- wait for.
use minio_bucket_controller.Base.{String, ◌≡◌, true, false, List, [], ◌∷◌, All, is_empty}
use minio_bucket_controller.Errors.{Result, ok, err}
use minio_bucket_controller.Api.Meta.{is_zero}
use minio_bucket_controller.Api.Bucket.{Bucket}
use minio_bucket_controller.Api.Provider.{BucketProvider}
use minio_bucket_controller.Api.Account.{
  BucketServiceAccount, account_condition_ready, account_condition_deletion_pending,
}
use minio_bucket_controller.Api.Secret.{Secret}
use minio_bucket_controller.Base.Dict.{Dict}
use minio_bucket_controller.Libraries.{Libraries}
use minio_bucket_controller.Program.{
  Call, Reply, get_account, get_provider, get_secret, list_buckets, list_users, add_user,
  random_bytes, list_canned_policies, add_canned_policy, set_policy, update_account_status,
}
use minio_bucket_controller.Program.Relies.{is_ok}
use minio_bucket_controller.Mc.Policy.{policy_text}
use minio_bucket_controller.Controllers.Provider.Connects.{HasKeys}
use minio_bucket_controller.Controllers.Status.{finalizer}

-- The server sent the secret of the keys.
abbrev pub IsSent : Result Secret → Type 0
IsSent r = is_ok r ≡ true

module _ (lib : Libraries) where
  -- An account that nobody deletes, with what earlier passes fill in, not yet ready and in use.
  pub record IsPrepared (a : BucketServiceAccount) : Type 0 where
    pub alive : is_zero a.metadata.deletion_timestamp ≡ true
    pub finalizer_there : (lib.add_finalizer a.metadata.finalizers finalizer).updated ≡ false
    pub conditions_there : is_empty a.status.conditions ≡ false
    pub not_ready : lib.is_status_condition_true a.status.conditions account_condition_ready ≡ false
    pub not_pending :
        lib.is_status_condition_true a.status.conditions account_condition_deletion_pending ≡ false

  abbrev pub HasPolicy : Bucket → Type 0
  HasPolicy b = is_ok (lib.json_compact (policy_text b.metadata.name)) ≡ true

  -- Some bucket uses the account, and the policy of each that does is made into JSON.
  abbrev pub AreUsers : Result (List Bucket) → Type 0
  AreUsers (ok (b ∷ bs)) = All HasPolicy (b ∷ bs)
  AreUsers (ok []) = ⊥
  AreUsers (err e) = ⊥

  -- MinIO lists its policies, which are made into JSON too.
  abbrev pub AreListed : Result (Dict String) → Type 0
  AreListed (ok ps) = All (λ (q : String × String). is_ok (lib.json_marshal q.1) ≡ true) ps
  AreListed (err e) = ⊥

  -- The reply lets the pass go on.
  abbrev pub Helpful : BucketServiceAccount → BucketProvider → (c : Call) → Reply c → Type 0
  Helpful a p (get_account k) r = r ≡ ok a
  Helpful a p (get_provider k) r = r ≡ ok p
  Helpful a p (get_secret k) r = HasKeys p k r × IsSent r
  Helpful a p (list_buckets field value) r = AreUsers r
  Helpful a p (list_users mc) r = is_ok r ≡ true
  Helpful a p (random_bytes n) r = is_ok r ≡ true
  Helpful a p (add_user mc user password) r = is_ok r ≡ true
  Helpful a p (list_canned_policies mc) r = AreListed r
  Helpful a p (add_canned_policy mc n text) r = is_ok r ≡ true
  Helpful a p (set_policy mc policies user) r = is_ok r ≡ true
  Helpful a p (update_account_status a') r = is_ok r ≡ true
  Helpful a p c r = Unit
