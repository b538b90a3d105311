-- ===== src/Controllers/Account/Deletion.antt =====
-- controllers/bucketserviceaccount_controller.go: `reconcileDeletion`
use minio_bucket_controller.Base.{◌<>◌, ◌==◌, not, if◌then◌else◌}
use minio_bucket_controller.Errors.{ok, err, wrap, is_not_found, error_code}
use minio_bucket_controller.Api.Meta.{named, status_true}
use minio_bucket_controller.Api.Bucket.{bucket_condition_deleting}
use minio_bucket_controller.Api.Account.{BucketServiceAccount, account_condition_deleting}
use minio_bucket_controller.Api.Object.{account}
use minio_bucket_controller.Libraries.{Libraries}
use minio_bucket_controller.Mc.Client.{Client}
use minio_bucket_controller.Program.{
  Program, ask, ◌>>=◌, ◌>>◌, get_provider, update_account_status, delete_secret, remove_user,
}
use minio_bucket_controller.Recorder.{event}
use minio_bucket_controller.Controllers.Status.{
  Step, go_on, stop, fail, condition, set_condition, name, sa_secret_suffix,
}
use minio_bucket_controller.Controllers.Provider.{new_client}
use minio_bucket_controller.Controllers.Account.Failure.{with_status}

module _ (lib : Libraries) where
  -- The first pass marks the account as being deleted.
  unfoldable pub mark_deleting : BucketServiceAccount → Program (Step BucketServiceAccount)
  mark_deleting a = do
    cs ← set_condition lib a.status.conditions (
        condition account_condition_deleting status_true "BucketServiceAccountDeletion"
          "BucketServiceAccount is being deleted" a.metadata.generation)
    let marked = with_status a cs bucket_condition_deleting
    r ← ask (update_account_status marked)
    elim r [ err e ↦ fail marked e | ok a' ↦ stop a' ]

  -- The keys' secret and the user are removed.
  unfoldable pub remove_account :
      Client → BucketServiceAccount → Program (Step BucketServiceAccount)
  unfolding event
  remove_account mc a = do
    r ← ask (remove_user mc (name a.metadata.name))
    elim r [
      | err e ↦ if error_code e == "XMinioAdminNoSuchUser" then go_on a else fail a e
      | ok _ ↦ do
        event lib (account a) "UserDeleted" ("User " <> (a.metadata.name <> " deleted"))
        go_on a
    ]

  unfoldable pub delete_keys : Client → BucketServiceAccount → Program (Step BucketServiceAccount)
  delete_keys mc a = do
    r ← ask (delete_secret (named (a.metadata.name <> sa_secret_suffix) a.metadata.namespace))
    elim r [
      | err e ↦ if is_not_found e then remove_account mc a else fail a e
      | ok _ ↦ remove_account mc a
    ]

  -- The later passes, with a client for the provider.
  unfoldable pub delete_from_provider : BucketServiceAccount → Program (Step BucketServiceAccount)
  delete_from_provider a = do
    found ← ask (get_provider (record { namespace = ""; name = a.spec.provider }))
    elim found [
      | err e ↦ if is_not_found e then go_on a else fail a (wrap "unable to get bucket provider" e)
      | ok p ↦ do
        client ← new_client lib p
        elim client [
          | err e ↦ fail a (wrap "unable to create minio client" e)
          | ok mc ↦ delete_keys mc a
        ]
    ]

  -- `reconcileDeletion`
  unfoldable pub reconcile_deletion : BucketServiceAccount → Program (Step BucketServiceAccount)
  reconcile_deletion a =
      if not (lib.is_status_condition_true a.status.conditions account_condition_deleting)
      then mark_deleting a
      else delete_from_provider a
