-- ===== src/Controllers/Account/User.antt =====
-- controllers/bucketserviceaccount_controller.go: `reconcileUser`
pub mod Laws
use minio_bucket_controller.Base.{◌<>◌, contains, if◌then◌else◌}
use minio_bucket_controller.Errors.{ok, err, wrap}
use minio_bucket_controller.Api.Account.{BucketServiceAccount}
use minio_bucket_controller.Api.Object.{account}
use minio_bucket_controller.Libraries.{Libraries}
use minio_bucket_controller.Mc.Client.{Client}
use minio_bucket_controller.Mc.Connect.{generate_password}
use minio_bucket_controller.Program.{Program, ask, ◌>>=◌, ◌>>◌, list_users, add_user}
use minio_bucket_controller.Recorder.{event}
use minio_bucket_controller.Controllers.Status.{Step, go_on, fail, name}

-- `reconcileUser`
unfoldable pub reconcile_user :
    Libraries → Client → BucketServiceAccount → Program (Step BucketServiceAccount)
unfolding event generate_password
reconcile_user lib mc a = do
  let user = name a.metadata.name
  r ← ask (list_users mc)
  elim r [
    | err e ↦ fail a (wrap "unable to list users" e)
    | ok us ↦ if contains us user then go_on a else (do
      password ← generate_password
      added ← ask (add_user mc user password)
      elim added [
        | err e ↦ fail a (wrap "unable to create user" e)
        | ok _ ↦ do event lib (account a) "UserCreated" ("User " <> (user <> " created")); go_on a
      ])
  ]
