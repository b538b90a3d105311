-- ===== src/Libraries.antt =====
-- The pure functions of the libraries that the controllers call. Their code is not in the
-- repository, so the model takes them as an argument; `Libraries.Laws` states what is documented.
pub mod Laws
use minio_bucket_controller.Base.{ℕ, String, Bool, List, Option}
use minio_bucket_controller.Errors.{Result}
use minio_bucket_controller.Api.Meta.{Condition, OwnerReference, ObjectMeta}
use minio_bucket_controller.Api.Bucket.{BucketAccess}
use minio_bucket_controller.Api.Object.{Object, Value}
use minio_bucket_controller.Mc.Client.{Connection, AdminClient, S3Client}

-- `schema.GroupVersionKind`, with `GroupVersion().String()` as its first field.
pub record GroupVersionKind : Type 0 where
  pub group_version : String
  pub kind : String

-- `schema.GroupVersion`
pub record GroupVersion : Type 0 where
  pub group : String
  pub version : String

pub record Libraries : Type 0 where
  -- k8s.io/apimachinery/pkg/api/meta; the number is the time of the call
  pub set_status_condition : List Condition → Condition → ℕ → List Condition
  pub remove_status_condition : List Condition → String → List Condition
  pub find_status_condition : List Condition → String → Option Condition
  pub is_status_condition_true : List Condition → String → Bool
  -- k8s.io/apimachinery: metav1.GetControllerOf, schema.ParseGroupVersion, equality.Semantic
  pub get_controller_of : List OwnerReference → Option OwnerReference
  pub parse_group_version : String → Result GroupVersion
  pub deep_equal : Value → Value → Bool
  -- sigs.k8s.io/controller-runtime: apiutil.GVKForObject, and controllerutil
  pub gvk_for_object : Object → Result GroupVersionKind
  pub set_controller_reference : Object → ObjectMeta → Result ObjectMeta
  pub add_finalizer : List String → String → record { finalizers : List String; updated : Bool }
  pub remove_finalizer : List String → String → List String
  -- madmin.New and minio.New
  pub new_admin_client : Connection → Result AdminClient
  pub new_s3_client : Connection → Result S3Client
  -- go.uber.org/multierr: the text of two errors combined
  pub multierr_text : String → String → String
  -- the Go library: `%q`, strings.Title, text/template, encoding/json
  pub quote : String → String
  pub title : String → String
  pub parse_template : String → Result (Unit {0})
  pub execute_template : String → BucketAccess → Result String
  pub json_compact : String → Result String
  pub json_marshal : String → Result String
  -- `json.Unmarshal` into a struct with the field `sub`, and its value
  pub json_subject : List ℕ → Result String
  -- `pem.Decode`: the bytes of the first block; and the common name of `x509.ParseCertificate`
  pub pem_decode : String → Option (List ℕ)
  pub common_name : List ℕ → Result String
