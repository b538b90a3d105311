-- ===== src/Tests/Sample.antt =====
-- A simple implementation of the libraries, with the documented laws, and sample objects.
use minio_bucket_controller.Base.{
  String, arith, ◌≡◌, ◌<>◌, ◌==◌, eq_refl, Bool, true, false, List, [], ◌∷◌, ◌++◌, Option, none,
  some, contains, refl, if◌then◌else◌,
}
use minio_bucket_controller.Errors.{ok}
use minio_bucket_controller.Api.Meta.{
  Condition, status_true, OwnerReference, ObjectMeta, NamespacedName, named,
}
use minio_bucket_controller.Api.Bucket.{Bucket}
use minio_bucket_controller.Api.Provider.{BucketProvider}
use minio_bucket_controller.Api.Account.{BucketServiceAccount, account_condition_deletion_pending}
use minio_bucket_controller.Api.Secret.{Secret}
use minio_bucket_controller.Api.Object.{
  Object, bucket, provider, account, secret, other, Value, pointer, secret_value, object_meta,
}
use minio_bucket_controller.Libraries.{Libraries}
use minio_bucket_controller.Libraries.Laws.{
  first_controller, OwnerLaws, EqualityLaws, FinalizerLaws,
}
use minio_bucket_controller.Mc.Client.{Connection, Client}
use minio_bucket_controller.Controllers.Account.Index.{gvk}

abbrev set_condition : List Condition → Condition → List Condition
set_condition [] c = c ∷ []
set_condition (d ∷ ds) c = if d.type == c.type then c ∷ ds else d ∷ set_condition ds c

abbrev remove_condition : List Condition → String → List Condition
remove_condition [] t = []
remove_condition (d ∷ ds) t =
    if d.type == t then remove_condition ds t else d ∷ remove_condition ds t

abbrev find_condition : List Condition → String → Option Condition
find_condition [] t = none
find_condition (d ∷ ds) t = if d.type == t then some d else find_condition ds t

abbrev holds : Option Condition → Bool
holds none = false
holds (some c) = elim c.status [ status_true ↦ true | _ ↦ false ]

abbrev remove_text : List String → String → List String
remove_text [] t = []
remove_text (s ∷ ss) t = if s == t then remove_text ss t else s ∷ remove_text ss t

abbrev uid_of : Option ObjectMeta → String
uid_of none = ""
uid_of (some m) = m.uid

abbrev deep_equal : Value → Value → Bool
deep_equal (pointer o) (pointer p) = uid_of (object_meta o) == uid_of (object_meta p)
deep_equal (secret_value s) (secret_value t) = s.metadata.uid == t.metadata.uid
deep_equal (pointer o) (secret_value s) = false
deep_equal (secret_value s) (pointer o) = false

abbrev kind_of : Object → String
kind_of (bucket b) = "Bucket"
kind_of (provider p) = "BucketProvider"
kind_of (account a) = "BucketServiceAccount"
kind_of (secret s) = "Secret"
kind_of (other m) = "Other"

abbrev pub test_libraries : Libraries
test_libraries = record {
  set_status_condition = λ cs c t. set_condition cs (record c { last_transition_time = t });
  remove_status_condition = remove_condition;
  find_status_condition = find_condition;
  is_status_condition_true = λ cs t. holds (find_condition cs t);
  get_controller_of = first_controller;
  parse_group_version = λ s. ok (record { group = s; version = "" });
  deep_equal = deep_equal;
  gvk_for_object = λ o. ok (record { group_version = gvk; kind = kind_of o });
  set_controller_reference = λ o m. ok m;
  add_finalizer = λ fs f.
      if contains fs f
      then record { finalizers = fs; updated = false }
      else record { finalizers = fs ++ (f ∷ []); updated = true };
  remove_finalizer = remove_text;
  new_admin_client = λ c. ok (record { connection = c });
  new_s3_client = λ c. ok (record {
    connection = c;
    endpoint_url = record { scheme = if c.secure then "https" else "http"; host = c.endpoint };
  });
  multierr_text = λ s t. s <> ("; " <> t);
  quote = λ s. "\"" <> (s <> "\"");
  title = λ s. s;
  parse_template = λ t. ok tt;
  execute_template = λ t a. ok (t <> a.bucket);
  json_compact = λ s. ok s;
  json_marshal = λ s. ok s;
  json_subject = λ ns. ok "system:serviceaccount:minio:controller";
  pem_decode = λ s. if s == "" then none else some [];
  common_name = λ ns. ok "controller";
}

pub test_libraries-OwnerLaws : OwnerLaws test_libraries
test_libraries-OwnerLaws = record { get_controller_of_lem = λ rs. refl }

pub test_libraries-EqualityLaws : EqualityLaws test_libraries
test_libraries-EqualityLaws = record {
  deep_equal-value-pointer = λ s o. refl;
  deep_equal-pointer = λ o. eq_refl (uid_of (object_meta o));
}

abbrev pub test_key : NamespacedName
test_key = record { namespace = "shop"; name = "images" }

-- The bucket was controlled by another account.
abbrev pub test_owner : OwnerReference
test_owner = record {
  api_version = gvk;
  kind = "BucketServiceAccount";
  name = "old";
  uid = "1";
  block_owner_deletion = some true;
  controller = some true;
}

abbrev pub test_friend : OwnerReference
test_friend = record {
  api_version = "v1";
  kind = "ConfigMap";
  name = "settings";
  uid = "2";
  block_owner_deletion = none;
  controller = none;
}

abbrev pub test_bucket : Bucket
test_bucket =
    let m = named "images" "shop" in
    record {
      metadata = record m { owner_references = test_friend ∷ test_owner ∷ [] };
      spec = record {
        provider = "minio";
        service_account = "";
        reclaim_policy = "";
        secret_name = none;
        secret_template = ("S3_BUCKET", "{{ .Bucket }}") ∷ [];
      };
      status = record { endpoint = none; secret_name = none; conditions = []; phase = "" };
    }

abbrev pub test_condition : Condition
test_condition = record {
  type = account_condition_deletion_pending;
  status = status_true;
  reason = "DanglingServiceAccount";
  message = "";
  observed_generation = 1;
  last_transition_time = 1000;
}

abbrev pub test_account : BucketServiceAccount
test_account = record {
  metadata = named "writer" "shop";
  spec = record { provider = "minio" };
  status = record { secret_name = none; conditions = test_condition ∷ []; phase = "" };
}

abbrev pub test_provider : BucketProvider
test_provider = record {
  metadata = named "minio" "";
  spec = record {
    endpoint = "minio.local:9000";
    access_key = record { name = "root"; namespace = "minio"; key = "user" };
    secret_key = record { name = "root"; namespace = "minio"; key = "password" };
    insecure = false;
  };
  status = record { conditions = []; phase = "" };
}

abbrev pub test_connection : Connection
test_connection = record {
  endpoint = "minio.local:9000";
  access_key = "root";
  secret_key = "root-password";
  secure = true;
}

abbrev pub test_client : Client
test_client = record {
  admin_client = record { connection = test_connection };
  client = record {
    connection = test_connection;
    endpoint_url = record { scheme = "https"; host = "minio.local:9000" };
  };
}

abbrev pub test_secret : Secret
test_secret = record {
  metadata = named "images-bucket-credentials" "shop";
  type = "";
  contents = [];
}

contains-append : (fs : List String) (f : String) → contains (fs ++ (f ∷ [])) f ≡ true
contains-append [] f = rw (eq_refl f) refl
contains-append (g ∷ fs) f = ground (arith, contains-append fs f)

pub test_libraries-FinalizerLaws : FinalizerLaws test_libraries
test_libraries-FinalizerLaws = record {
  add_finalizer-updated = λ fs f. ground arith;
  add_finalizer-contains = λ fs f. ground (arith, contains-append fs f);
}
