-- ===== src/Tests/Providers.antt =====
-- The theorems on providers at the sample.
use minio_bucket_controller.Base.{[]}
use minio_bucket_controller.Api.Object.{provider, bucket}
use minio_bucket_controller.Program.Contract.{Meets}
use minio_bucket_controller.Controllers.Provider.{reconcile}
use minio_bucket_controller.Controllers.Provider.Checks.{checks, reconcile-checks}
use minio_bucket_controller.Controllers.Webhook.Provider.{validate_create, validate_update}
use minio_bucket_controller.Controllers.Webhook.Provider.Admission.{
  contract, validate_create-admitted, validate_update-contract,
}
use minio_bucket_controller.Tests.Sample.{test_libraries, test_key, test_provider, test_bucket}

reconcile-checks_example : Meets checks [] (reconcile test_libraries test_key)
reconcile-checks_example = reconcile-checks test_libraries test_key

validate_create-admitted_example :
    Meets (contract test_provider) [] (validate_create test_libraries (provider test_provider))
validate_create-admitted_example = validate_create-admitted test_libraries test_provider

validate_update-contract_example :
    Meets
      (contract test_provider)
      []
      (validate_update test_libraries (provider test_provider) (bucket test_bucket))
validate_update-contract_example =
    validate_update-contract test_libraries test_provider (bucket test_bucket)
