-- ===== src/Tests/World.antt =====
-- An environment without state in which every call succeeds, long after the sample was made.
use minio_bucket_controller.Base.{ℕ, List, refl, true, some, none, [], ◌∷◌, arith}
use minio_bucket_controller.Errors.{ok}
use minio_bucket_controller.Program.{
  Call, Reply, get_bucket, get_provider, get_account, get_secret, list_buckets, list_providers,
  list_accounts, create_account, create_secret, update_bucket, update_account, update_secret,
  update_bucket_status, update_account_status, update_provider_status, delete_secret,
  delete_account, bucket_exists, make_bucket, remove_bucket, force_remove_bucket,
  list_minio_buckets, list_users, add_user, remove_user, list_service_accounts, add_service_account,
  delete_service_account, list_canned_policies, add_canned_policy, set_policy, record_event, now,
  random_bytes, new_manager, index_buckets, start_collection, complete_controller, complete_webhook,
  add_healthz_check, add_readyz_check, start_manager,
}
use minio_bucket_controller.Api.Meta.{OwnerReference, named}
use minio_bucket_controller.Api.Bucket.{Bucket}
use minio_bucket_controller.Api.Secret.{Secret}
use minio_bucket_controller.Api.Account.{BucketServiceAccount}
use minio_bucket_controller.Controllers.Status.{finalizer}
use minio_bucket_controller.Controllers.Account.Index.{gvk}
use minio_bucket_controller.Program.Run.{Environment}
use minio_bucket_controller.Controllers.Account.Collect.Progress.{IsLate, IsWritable}
use minio_bucket_controller.Tests.Sample.{
  test_friend, test_condition, test_bucket, test_provider, test_account, test_secret,
}

abbrev account_owner : OwnerReference
account_owner = record {
  api_version = gvk;
  kind = "BucketServiceAccount";
  name = "writer";
  uid = test_account.metadata.uid;
  block_owner_deletion = some true;
  controller = some true;
}

abbrev pub test_time : ℕ
test_time = 100000000000

abbrev reply : (c : Call) → Reply c
reply (get_bucket k) = ok test_bucket
reply (get_provider k) = ok test_provider
reply (get_account k) = ok test_account
reply (get_secret k) = ok test_secret
reply (list_buckets field value) = ok (test_bucket ∷ [])
reply list_providers = ok (test_provider ∷ [])
reply list_accounts = ok (test_account ∷ [])
reply (create_account a) = ok a
reply (create_secret s) = ok s
reply (update_bucket b) = ok b
reply (update_account a) = ok a
reply (update_secret s) = ok s
reply (update_bucket_status b) = ok b
reply (update_account_status a) = ok a
reply (update_provider_status p) = ok p
reply (delete_secret m) = ok tt
reply (delete_account a) = ok tt
reply (bucket_exists c b) = ok true
reply (make_bucket c b) = ok tt
reply (remove_bucket c b) = ok tt
reply (force_remove_bucket c b) = ok tt
reply (list_minio_buckets c) = ok []
reply (list_users c) = ok []
reply (add_user c user password) = ok tt
reply (remove_user c user) = ok tt
reply (list_service_accounts c user) = ok []
reply (add_service_account c user) = ok (record { access_key = "AKIA"; secret_key = "hidden" })
reply (delete_service_account c v) = ok tt
reply (list_canned_policies c) = ok []
reply (add_canned_policy c name policy) = ok tt
reply (set_policy c policies user) = ok tt
reply (record_event o type reason message) = tt
reply now = test_time
reply (random_bytes n) = ok []
reply (new_manager o) = ok tt
reply (index_buckets field) = ok tt
reply (start_collection r frequency ttl) = tt
reply (complete_controller r kind owned) = ok tt
reply (complete_webhook r kind defaulter) = ok tt
reply (add_healthz_check s) = ok tt
reply (add_readyz_check s) = ok tt
reply start_manager = ok tt

abbrev pub test_world : Environment
test_world = record { State = Unit; answer = λ c s. (reply c, s) }

pub test_world-IsLate : IsLate test_world test_time
test_world-IsLate s = omega arith

pub test_world-IsWritable : IsWritable test_world
test_world-IsWritable a s = refl

-- An environment that stores a bucket: it answers what was written last, and all else succeeds.
abbrev store : (c : Call) → Bucket → Reply c × Bucket
store (get_bucket k) b = (ok b, b)
store (update_bucket b') b = (ok b', b')
store (update_bucket_status b') b = (ok b', record b { status = b'.status })
store c b = (reply c, b)

abbrev pub test_store : Environment
test_store = record { State = Bucket; answer = store }

-- The same, with these random bytes.
abbrev random : List ℕ → (c : Call) → Reply c
random bs (random_bytes n) = ok bs
random bs c = reply c

abbrev pub random_world : List ℕ → Environment
random_world bs = record { State = Unit; answer = λ c s. (random bs c, s) }

-- A bucket whose account is its controller, as the last of the passes finds it.
abbrev pub prepared_bucket : Bucket
prepared_bucket =
    let m = test_bucket.metadata in
    record test_bucket {
      metadata = record m {
        owner_references = test_friend ∷ account_owner ∷ [];
        finalizers = finalizer ∷ [];
      };
      spec = record {
        provider = "minio";
        service_account = "writer";
        reclaim_policy = "Retain";
        secret_name = some "images-credentials";
        secret_template = ("S3_BUCKET", "{{ .Bucket }}") ∷ [];
      };
      status = record {
        endpoint = some "minio.local:9000";
        secret_name = none;
        conditions = test_condition ∷ [];
        phase = "Creating";
      };
    }

-- The root keys, under the names that the provider refers to.
abbrev root_secret : Secret
root_secret = record {
  metadata = named "root" "minio";
  type = "";
  contents = ("user", "root") ∷ ("password", "root-password") ∷ [];
}

abbrev help : (c : Call) → Reply c
help (get_bucket k) = ok prepared_bucket
help (get_secret k) = ok root_secret
help c = reply c

-- An environment that lets a pass over the prepared bucket go on.
abbrev pub helpful_world : Environment
helpful_world = record { State = Unit; answer = λ c s. (help c, s) }

-- The account of that bucket, as the last of its passes finds it.
abbrev pub prepared_account : BucketServiceAccount
prepared_account = record test_account {
  metadata = record test_account.metadata { finalizers = finalizer ∷ [] };
  status = record test_account.status {
    conditions = record test_condition { type = "Creating" } ∷ [];
  };
}

abbrev help_account : (c : Call) → Reply c
help_account (get_account k) = ok prepared_account
help_account c = help c

-- An environment that lets a pass over the prepared account go on.
abbrev pub account_world : Environment
account_world = record { State = Unit; answer = λ c s. (help_account c, s) }
