-- ===== src/Tests/Accounts.antt =====
-- The theorems on service accounts at the sample.
use minio_bucket_controller.Base.{◌+◌, ◌≤◌, refl, arith, ◌<>◌, [], some, none, ◌≡◌, true, false}
use minio_bucket_controller.Errors.{ok, new}
use minio_bucket_controller.Api.Account.{BucketServiceAccount}
use minio_bucket_controller.Api.Object.{account}
use minio_bucket_controller.Program.Contract.{Meets}
use minio_bucket_controller.Controllers.Status.{Step, name, prefix}
use minio_bucket_controller.Controllers.Account.Failure.{stopped}
use minio_bucket_controller.Controllers.Account.Failure.Laws.{report, stopped_account-reports}
use minio_bucket_controller.Controllers.Account.User.{reconcile_user}
use minio_bucket_controller.Controllers.Account.User.Laws.{user_contract, reconcile_user-once}
use minio_bucket_controller.Controllers.Account.Keys.{reconcile_service_account}
use minio_bucket_controller.Controllers.Account.Keys.Laws.{
  keys, Ended, reconcile_service_account-keys,
}
use minio_bucket_controller.Controllers.Bucket.Credentials.KeysSecret.{
  read_back, access_of-reconcile_service_account,
}
use minio_bucket_controller.Controllers.Account.Policies.{reconcile_policies}
use minio_bucket_controller.Controllers.Account.Policies.Laws.{
  assignment, reconcile_policies-rights,
}
use minio_bucket_controller.Controllers.Account.Reconcile.{reconcile_deleted, reconcile}
use minio_bucket_controller.Controllers.Account.Reconcile.Order.{order}
use minio_bucket_controller.Controllers.Account.Reconcile.PassOrder.{reconcile-account_order}
use minio_bucket_controller.Controllers.Account.Reconcile.Release.{
  release, reconcile_deleted-release,
}
use minio_bucket_controller.Controllers.Account.Collect.{is_waiting, collect_account}
use minio_bucket_controller.Controllers.Account.Collect.Laws.{collection, collect_account-waits}
use minio_bucket_controller.Controllers.Account.Index.{gc_ttl}
use minio_bucket_controller.Controllers.Webhook.Account.{
  validate_create, validate_update, validate_delete,
}
use minio_bucket_controller.Controllers.Webhook.Account.Admission.{
  guarded_contract, UserFree, IsAuthorised, decides, validate_create-guarded,
  validate_change-decides,
}
use minio_bucket_controller.Controllers.Account.Collect.Progress.{
  EndsWithDelete, collect_account-collects,
}
use minio_bucket_controller.Program.Run.{run}
use minio_bucket_controller.Mc.Connect.{new_mc}
use minio_bucket_controller.Program.{
  get_account, get_provider, get_secret, list_buckets, list_users, random_bytes, add_user,
  list_canned_policies, add_canned_policy, set_policy, update_account_status,
}
use minio_bucket_controller.Program.Relies.{Helps}
use minio_bucket_controller.Controllers.Provider.Connects.{HasClients}
use minio_bucket_controller.Controllers.Account.Reconcile.Helpful.{IsPrepared, Helpful}
use minio_bucket_controller.Controllers.Account.Reconcile.Steps.{last_phase}
use minio_bucket_controller.Controllers.Account.Reconcile.Progress.{reconcile_account-readies}
use minio_bucket_controller.Tests.World.{
  prepared_account, account_world, test_world, test_time, test_world-IsLate, test_world-IsWritable,
}
use minio_bucket_controller.Tests.Sample.{
  test_libraries, test_provider, test_key, test_account, test_bucket, test_client,
}

-- A step that failed.
abbrev failed_step : Step BucketServiceAccount
failed_step = record {
  object = test_account;
  requeue_after = 0;
  done = false;
  error = some (new "unable to list users");
}

stopped_account-reports_example :
    Meets (report failed_step) [] (stopped test_libraries failed_step "ErrCreateUser")
stopped_account-reports_example = stopped_account-reports test_libraries failed_step "ErrCreateUser"

reconcile_user-once_example :
    Meets
      (user_contract test_client test_account)
      []
      (reconcile_user test_libraries test_client test_account)
reconcile_user-once_example = reconcile_user-once test_libraries test_client test_account

reconcile_service_account-keys_example :
    Meets
      (keys test_client (name "writer") (Ended test_account))
      []
      (reconcile_service_account test_libraries test_client test_account)
reconcile_service_account-keys_example =
    reconcile_service_account-keys test_libraries test_client test_account

reconcile_policies-rights_example :
    Meets
      (assignment test_libraries test_client test_account (λ h s. Unit))
      []
      (reconcile_policies test_libraries test_client test_account)
reconcile_policies-rights_example =
    reconcile_policies-rights test_libraries test_client test_account

reconcile_deleted-release_example :
    Meets
      (release test_libraries test_account (λ h r. Unit))
      []
      (reconcile_deleted test_libraries test_account)
reconcile_deleted-release_example = reconcile_deleted-release test_libraries test_account

collect_account-waits_example :
    Meets
      (collection gc_ttl test_account (λ h u. Unit))
      []
      (collect_account test_libraries gc_ttl test_account)
collect_account-waits_example = collect_account-waits test_libraries gc_ttl test_account

validate_create-guarded_example :
    Meets
      (guarded_contract "controller" (ok "controller") (UserFree (prefix <> "writer")))
      []
      (validate_create test_libraries "controller" (ok "controller") (account test_account))
validate_create-guarded_example =
    validate_create-guarded test_libraries "controller" (ok "controller") test_account

validate_change-decides_example :
    Meets
      (decides ((true ≡ true) × IsAuthorised "controller" (ok "guest")))
      []
      (validate_update "controller" (ok "guest") (account test_account) (account test_account))
    × Meets
        (decides ((true ≡ true) × IsAuthorised "controller" (ok "guest")))
        []
        (validate_delete "controller" (ok "guest") (account test_account))
validate_change-decides_example =
    validate_change-decides "controller" (ok "guest") (account test_account) (account test_account)

test_condition_old : 1000 + gc_ttl ≤ test_time
test_condition_old = omega arith

collect_account-collects_example :
    EndsWithDelete test_account
      (run test_world (collect_account test_libraries gc_ttl test_account) [] tt).history
unfolding is_waiting
collect_account-collects_example =
    collect_account-collects test_world test_time gc_ttl test_world-IsLate test_libraries
      test_account [] tt (test_condition_old, tt) refl test_world-IsWritable

access_of-reconcile_service_account_example :
    Meets
      (read_back test_client test_bucket)
      []
      (reconcile_service_account test_libraries test_client test_account)
access_of-reconcile_service_account_example =
    access_of-reconcile_service_account test_libraries test_client test_client test_account
      test_bucket

reconcile-account_order_example : Meets (order (λ h s. Unit)) [] (reconcile test_libraries test_key)
reconcile-account_order_example = reconcile-account_order test_libraries test_key

prepared_account-IsPrepared : IsPrepared test_libraries prepared_account
prepared_account-IsPrepared = record {
  alive = refl;
  finalizer_there = refl;
  conditions_there = refl;
  not_ready = refl;
  not_pending = refl;
}

account_world-Helps : Helps (Helpful test_libraries prepared_account test_provider) account_world
account_world-Helps (get_account k) s = refl
account_world-Helps (get_provider k) s = refl
account_world-Helps (get_secret k) s = ((λ e. refl, λ e. refl), refl)
account_world-Helps (list_buckets field value) s = (refl, tt)
account_world-Helps (list_users mc) s = refl
account_world-Helps (random_bytes n) s = refl
account_world-Helps (add_user mc user password) s = refl
account_world-Helps (list_canned_policies mc) s = tt
account_world-Helps (add_canned_policy mc n text) s = refl
account_world-Helps (set_policy mc policies user) s = refl
account_world-Helps (update_account_status a) s = refl
account_world-Helps c s = tt

test_provider-HasClients : HasClients test_libraries test_provider
unfolding new_mc
test_provider-HasClients access password = refl

reconcile_account-readies_example :
    (last_phase (run account_world (reconcile test_libraries test_key) [] tt).history
      ≡ some "Ready")
    × ((run account_world (reconcile test_libraries test_key) [] tt).value
        ≡ some (record { requeue_after = 0; error = none }))
reconcile_account-readies_example =
    reconcile_account-readies test_libraries prepared_account test_provider
      prepared_account-IsPrepared test_provider-HasClients account_world account_world-Helps
      test_key tt
