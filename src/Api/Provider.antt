-- ===== src/Api/Provider.antt =====
-- api/v1alpha1/bucketprovider_types.go
use minio_bucket_controller.Base.{String, Bool, List}
use minio_bucket_controller.Api.Meta.{ObjectMeta, Condition}

abbrev pub provider_condition_creating : String
provider_condition_creating = "Creating"

abbrev pub provider_condition_ready : String
provider_condition_ready = "Ready"

abbrev pub provider_condition_error : String
provider_condition_error = "Error"

abbrev pub err_provider_invalid : String
err_provider_invalid = "InvalidProvider"

abbrev pub err_provider_unavailable : String
err_provider_unavailable = "UnavailableProvider"

abbrev pub default_provider_annotation : String
default_provider_annotation = "s3.linka.cloud/is-default-provider"

pub record SecretRef : Type 0 where
  pub name : String
  pub namespace : String
  pub key : String

pub record BucketProviderSpec : Type 0 where
  pub endpoint : String
  pub access_key : SecretRef
  pub secret_key : SecretRef
  pub insecure : Bool

pub record BucketProviderStatus : Type 0 where
  pub conditions : List Condition
  pub phase : String

pub record BucketProvider : Type 0 where
  pub metadata : ObjectMeta
  pub spec : BucketProviderSpec
  pub status : BucketProviderStatus
