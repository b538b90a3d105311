-- ===== src/Api/Bucket.antt =====
-- api/v1alpha1/bucket_types.go
use minio_bucket_controller.Base.{String, Bool, List, Option}
use minio_bucket_controller.Base.Dict.{Dict}
use minio_bucket_controller.Api.Meta.{ObjectMeta, Condition}

abbrev pub bucket_reclaim_delete : String
bucket_reclaim_delete = "Delete"

abbrev pub bucket_reclaim_retain : String
bucket_reclaim_retain = "Retain"

abbrev pub minio_access_key : String
minio_access_key = "MINIO_ACCESS_KEY"

abbrev pub minio_secret_key : String
minio_secret_key = "MINIO_SECRET_KEY"

abbrev pub minio_endpoint : String
minio_endpoint = "MINIO_ENDPOINT"

abbrev pub minio_bucket : String
minio_bucket = "MINIO_BUCKET"

abbrev pub minio_secure : String
minio_secure = "MINIO_SECURE"

abbrev pub bucket_condition_creating : String
bucket_condition_creating = "Creating"

abbrev pub bucket_condition_ready : String
bucket_condition_ready = "Ready"

abbrev pub bucket_condition_error : String
bucket_condition_error = "Error"

abbrev pub bucket_condition_deleting : String
bucket_condition_deleting = "Deleting"

abbrev pub reason_err_create_bucket : String
reason_err_create_bucket = "ErrCreateBucket"

abbrev pub reason_err_create_service_account : String
reason_err_create_service_account = "ErrCreateServiceAccount"

abbrev pub reason_err_create_secret : String
reason_err_create_secret = "ErrCreateSecret"

abbrev pub bucket_access_secret_type : String
bucket_access_secret_type = "s3.linka.cloud/bucket-access"

pub record BucketAccess : Type 0 where
  pub access_key : String
  pub secret_key : String
  pub endpoint : String
  pub bucket : String
  pub secure : Bool

pub record BucketSpec : Type 0 where
  pub provider : String
  pub service_account : String
  pub reclaim_policy : String
  pub secret_name : Option String
  pub secret_template : Dict String

pub record BucketStatus : Type 0 where
  pub endpoint : Option String
  pub secret_name : Option String
  pub conditions : List Condition
  pub phase : String

pub record Bucket : Type 0 where
  pub metadata : ObjectMeta
  pub spec : BucketSpec
  pub status : BucketStatus
