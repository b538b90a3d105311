-- ===== src/Tests/Buckets.antt =====
-- The theorems on buckets at the sample.
use minio_bucket_controller.Base.{String, ◌≡◌, refl, true, false, [], ◌∷◌, some, if◌then◌else◌}
use minio_bucket_controller.Base.Dict.{Dict, lookup}
use minio_bucket_controller.Errors.{new}
use minio_bucket_controller.Api.Bucket.{
  BucketAccess, minio_access_key, minio_secret_key, minio_endpoint, minio_bucket, minio_secure,
}
use minio_bucket_controller.Api.Object.{bucket}
use minio_bucket_controller.Program.Contract.{Meets}
use minio_bucket_controller.Controllers.Status.{Step, finalizer}
use minio_bucket_controller.Api.Bucket.{Bucket}
use minio_bucket_controller.Controllers.Bucket.Failure.{stopped}
use minio_bucket_controller.Controllers.Bucket.Failure.Laws.{report, stopped-reports}
use minio_bucket_controller.Controllers.Bucket.Deletion.Safety.{removal}
use minio_bucket_controller.Controllers.Bucket.Credentials.{apply_templates, reconcile_secret}
use minio_bucket_controller.Controllers.Bucket.Credentials.Laws.{
  saving, SavedIfDone, reconcile_secret-saves,
}
use minio_bucket_controller.Controllers.Bucket.Reconcile.{
  reconcile, reconcile_object, update_and_return, with_finalizers, mark_creating,
}
use minio_bucket_controller.Controllers.Bucket.Reconcile.Removal.{reconcile-removal}
use minio_bucket_controller.Controllers.Bucket.Reconcile.Release.{release, reconcile-release}
use minio_bucket_controller.Controllers.Bucket.Reconcile.Order.{order, reconcile-order}
use minio_bucket_controller.Controllers.Webhook.Bucket.{
  fill_defaults, validate_update, validate_template,
}
use minio_bucket_controller.Controllers.Webhook.Bucket.Admission.{
  change_contract, validate_update-admitted,
}
use minio_bucket_controller.Controllers.Webhook.Bucket.Defaults.{reconcile_object-fill_defaults}
use minio_bucket_controller.Controllers.Webhook.Bucket.Templates.{apply_templates-credentials}
use minio_bucket_controller.Tests.World.{prepared_bucket}
use minio_bucket_controller.Tests.Sample.{
  test_libraries, test_libraries-EqualityLaws, test_key, test_bucket, test_client,
}

reconcile-removal_example :
    Meets (removal test_libraries (λ h s. Unit)) [] (reconcile test_libraries test_key)
reconcile-removal_example = reconcile-removal test_libraries test_key

reconcile-release_example :
    Meets (release test_libraries (λ h s. Unit)) [] (reconcile test_libraries test_key)
reconcile-release_example = reconcile-release test_libraries test_key

reconcile-order_example : Meets (order (λ h s. Unit)) [] (reconcile test_libraries test_key)
reconcile-order_example = reconcile-order test_libraries test_libraries-EqualityLaws test_key

-- A step that failed.
abbrev failed_step : Step Bucket
failed_step = record {
  object = test_bucket;
  requeue_after = 5;
  done = false;
  error = some (new "unable to create bucket");
}

stopped-reports_example :
    Meets (report failed_step) [] (stopped test_libraries failed_step "ErrCreateBucket")
stopped-reports_example = stopped-reports test_libraries failed_step "ErrCreateBucket"

reconcile_secret-saves_example :
    Meets
      (saving test_libraries test_client prepared_bucket "images-credentials"
        (SavedIfDone test_libraries test_client prepared_bucket "images-credentials"))
      []
      (reconcile_secret test_libraries test_client prepared_bucket)
reconcile_secret-saves_example =
    reconcile_secret-saves test_libraries test_client prepared_bucket "images-credentials"
      test_libraries-EqualityLaws refl

validate_update-admitted_example :
    Meets
      (change_contract test_libraries test_bucket test_bucket)
      []
      (validate_update test_libraries (bucket test_bucket) (bucket test_bucket))
validate_update-admitted_example = validate_update-admitted test_libraries test_bucket test_bucket

reconcile_object-fill_defaults_example :
    reconcile_object test_libraries (fill_defaults test_bucket) ≡ (
      if (test_libraries.add_finalizer [] finalizer).updated
      then update_and_return (
          with_finalizers
            (fill_defaults test_bucket)
            (test_libraries.add_finalizer [] finalizer).finalizers)
      else mark_creating test_libraries (fill_defaults test_bucket))
reconcile_object-fill_defaults_example =
    reconcile_object-fill_defaults test_libraries test_bucket refl

abbrev test_access : BucketAccess
test_access = record {
  access_key = "AKIA";
  secret_key = "hidden";
  endpoint = "minio.local:9000";
  bucket = "images";
  secure = true;
}

-- The secret that the sample's template leads to.
abbrev test_entries : Dict String
test_entries =
    (minio_bucket, "images")
    ∷ (minio_access_key, "AKIA")
    ∷ (minio_secret_key, "hidden")
    ∷ (minio_endpoint, "minio.local:9000")
    ∷ (minio_secure, "true")
    ∷ ("S3_BUCKET", "{{ .Bucket }}images")
    ∷ []

apply_templates-credentials_example :
    (lookup minio_access_key test_entries ≡ some "AKIA")
    × (lookup minio_secret_key test_entries ≡ some "hidden")
    × (lookup minio_endpoint test_entries ≡ some "minio.local:9000")
    × (lookup minio_bucket test_entries ≡ some "images")
    × (lookup minio_secure test_entries ≡ some "true")
unfolding apply_templates validate_template
apply_templates-credentials_example =
    apply_templates-credentials test_libraries test_access test_bucket.spec.secret_template
      test_entries refl refl
