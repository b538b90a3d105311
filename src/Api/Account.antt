-- ===== src/Api/Account.antt =====
-- api/v1alpha1/bucketserviceaccount_types.go
use minio_bucket_controller.Base.{String, List, Option}
use minio_bucket_controller.Api.Meta.{ObjectMeta, Condition}

abbrev pub account_condition_creating : String
account_condition_creating = "Creating"

abbrev pub account_condition_ready : String
account_condition_ready = "Ready"

abbrev pub account_condition_error : String
account_condition_error = "Error"

abbrev pub account_condition_deleting : String
account_condition_deleting = "Deleting"

abbrev pub account_condition_deletion_pending : String
account_condition_deletion_pending = "DeletionPending"

abbrev pub reason_err_create_user : String
reason_err_create_user = "ErrCreateUser"

abbrev pub reason_err_create_account : String
reason_err_create_account = "ErrCreateAccount"

abbrev pub reason_err_create_policy : String
reason_err_create_policy = "ErrCreatePolicy"

abbrev pub account_secret_type : String
account_secret_type = "s3.linka.cloud/service-account"

abbrev pub service_account_annotation : String
service_account_annotation = "s3.linka.cloud/service-account"

pub record BucketServiceAccountSpec : Type 0 where
  pub provider : String

pub record BucketServiceAccountStatus : Type 0 where
  pub secret_name : Option String
  pub conditions : List Condition
  pub phase : String

pub record BucketServiceAccount : Type 0 where
  pub metadata : ObjectMeta
  pub spec : BucketServiceAccountSpec
  pub status : BucketServiceAccountStatus
