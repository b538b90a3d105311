-- ===== src/Tests/Lifecycle.antt =====
-- The theorems on the life of a bucket at the sample.
use minio_bucket_controller.Base.{refl, ◌≡◌, some, none, [], ◌∷◌, inl}
use minio_bucket_controller.Api.Bucket.{Bucket}
use minio_bucket_controller.Program.Contract.{Meets}
use minio_bucket_controller.Program.Run.{run}
use minio_bucket_controller.Controllers.Status.{finalizer}
use minio_bucket_controller.Controllers.Bucket.Reconcile.{
  reconcile, reconcile_object, reconcile_spec, mark_creating,
}
use minio_bucket_controller.Controllers.Bucket.Reconcile.Lifecycle.{lifecycle, reconcile-lifecycle}
use minio_bucket_controller.Controllers.Bucket.Reconcile.Reachable.{
  IsCoherent, Reachable, created, changed, passed, Reachable-IsCoherent,
}
use minio_bucket_controller.Mc.Connect.{new_mc}
use minio_bucket_controller.Program.{
  get_bucket, get_provider, get_account, get_secret, bucket_exists, create_secret, update_secret,
  delete_secret, update_bucket_status,
}
use minio_bucket_controller.Controllers.OwnerRef.{
  force_controller_reference, controller_ref, put_owner_ref, without_old, old_controller,
  index_owner_ref, refer_same_object, drop_owner_ref,
}
use minio_bucket_controller.Controllers.Bucket.Reconcile.Helpful.{IsPrepared, Helpful}
use minio_bucket_controller.Controllers.Provider.Connects.{HasClients}
use minio_bucket_controller.Program.Relies.{Helps}
use minio_bucket_controller.Controllers.Bucket.Reconcile.Steps.{last_phase}
use minio_bucket_controller.Controllers.Bucket.Reconcile.Progress.{reconcile-readies}
use minio_bucket_controller.Controllers.Webhook.Bucket.{fill_defaults}
use minio_bucket_controller.Tests.Sample.{
  test_libraries, test_libraries-EqualityLaws, test_provider, test_key, test_bucket,
}
use minio_bucket_controller.Tests.World.{test_store, prepared_bucket, helpful_world}

reconcile-lifecycle_example : Meets (lifecycle (λ h s. Unit)) [] (reconcile test_libraries test_key)
reconcile-lifecycle_example = reconcile-lifecycle test_libraries test_key

-- The sample with its defaults and the finalizer.
abbrev fresh_bucket : Bucket
fresh_bucket =
    let b = fill_defaults test_bucket in
    record b { metadata = record (b.metadata) { finalizers = finalizer ∷ [] } }

abbrev creating_bucket : Bucket
creating_bucket = (run test_store (reconcile test_libraries test_key) [] fresh_bucket).state

creating_bucket-Reachable : Reachable test_libraries creating_bucket
unfolding run reconcile reconcile_object reconcile_spec mark_creating fill_defaults
creating_bucket-Reachable =
    changed fresh_bucket creating_bucket (created fresh_bucket refl)
      (passed test_store fresh_bucket test_key fresh_bucket creating_bucket refl (inl refl))

Reachable-IsCoherent_example : IsCoherent creating_bucket
Reachable-IsCoherent_example =
    Reachable-IsCoherent test_libraries creating_bucket creating_bucket-Reachable

-- The sample after the finalizer, and after the secret's name.
abbrev kept_bucket : Bucket
kept_bucket = (run test_store (reconcile test_libraries test_key) [] test_bucket).state

abbrev named_bucket : Bucket
named_bucket = (run test_store (reconcile test_libraries test_key) [] kept_bucket).state

prepared_bucket-IsPrepared : IsPrepared test_libraries prepared_bucket "images-credentials"
prepared_bucket-IsPrepared = record {
  alive = refl;
  finalizer_there = refl;
  provider_named = refl;
  secret_named = refl;
  policy_there = refl;
  conditions_there = refl;
  endpoint = "minio.local:9000";
  endpoint_there = refl;
  not_ready = refl;
}

helpful_world-Helps :
    Helps (Helpful test_libraries prepared_bucket test_provider "images-credentials") helpful_world
unfolding force_controller_reference controller_ref put_owner_ref without_old old_controller
    index_owner_ref refer_same_object drop_owner_ref
helpful_world-Helps (get_bucket k) s = refl
helpful_world-Helps (get_provider k) s = refl
helpful_world-Helps (get_account k) s = refl
helpful_world-Helps (get_secret k) s = ((λ e. refl, λ e. refl), λ e. refl)
helpful_world-Helps (bucket_exists mc n) s = refl
helpful_world-Helps (create_secret v) s = refl
helpful_world-Helps (update_secret v) s = refl
helpful_world-Helps (delete_secret m) s = refl
helpful_world-Helps (update_bucket_status v) s = refl
helpful_world-Helps c s = tt

test_provider-HasClients : HasClients test_libraries test_provider
unfolding new_mc
test_provider-HasClients access password = refl

reconcile-readies_example :
    (last_phase (run helpful_world (reconcile test_libraries test_key) [] tt).history
      ≡ some "Ready")
    × ((run helpful_world (reconcile test_libraries test_key) [] tt).value
        ≡ some (record { requeue_after = 0; error = none }))
reconcile-readies_example =
    reconcile-readies helpful_world test_libraries prepared_bucket test_provider
      "images-credentials" test_libraries-EqualityLaws prepared_bucket-IsPrepared
      ((refl, λ a. refl), tt) test_provider-HasClients helpful_world-Helps test_key tt
