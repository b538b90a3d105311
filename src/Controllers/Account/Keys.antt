-- ===== src/Controllers/Account/Keys.antt =====
-- controllers/bucketserviceaccount_controller.go: `reconcileServiceAccount`
pub mod Laws
use minio_bucket_controller.Base.{String, ◌<>◌, List, [], ◌∷◌, some, if◌then◌else◌}
use minio_bucket_controller.Errors.{Result, ok, err, wrap, is_not_found, combine_result}
use minio_bucket_controller.Api.Meta.{ObjectMeta, named}
use minio_bucket_controller.Api.Bucket.{minio_access_key, minio_secret_key}
use minio_bucket_controller.Api.Account.{
  BucketServiceAccount, account_secret_type, service_account_annotation,
}
use minio_bucket_controller.Api.Object.{account}
use minio_bucket_controller.Libraries.{Libraries}
use minio_bucket_controller.Mc.Client.{Client}
use minio_bucket_controller.Program.{
  Program, Credentials, ret, ask, ◌>>=◌, ◌>>◌, get_secret, create_secret, delete_secret,
  update_account_status, list_service_accounts, add_service_account, delete_service_account,
}
use minio_bucket_controller.Recorder.{event}
use minio_bucket_controller.Controllers.Status.{Step, go_on, stop, fail, name, sa_secret_suffix}

-- The metadata of the secret that holds an account's keys.
abbrev pub keys_meta : BucketServiceAccount → ObjectMeta
keys_meta a =
    let m = named (a.metadata.name <> sa_secret_suffix) a.metadata.namespace in
    record m {
      labels =
          ("app.kubernetes.io/managed-by", "minio-bucket-controller")
          ∷ (service_account_annotation, a.metadata.name)
          ∷ [];
    }

-- The loop that deletes the service accounts that the user has, up to the first error.
unfoldable pub delete_accounts : Client → List String → Program (Result (Unit {0}))
delete_accounts mc [] = ret (ok tt)
delete_accounts mc (v ∷ vs) = do
  r ← ask (delete_service_account mc v)
  elim r [
    | err e ↦ ret (err (wrap "unable to remove service account" e))
    | ok _ ↦ delete_accounts mc vs
  ]

module _ (lib : Libraries) where
  -- The keys are written to a secret, and its name to the status.
  unfoldable pub save_keys :
      Client → BucketServiceAccount → Credentials → Program (Step BucketServiceAccount)
  unfolding event
  save_keys mc a creds = elim (lib.set_controller_reference (account a) (keys_meta a)) [
    | err e ↦ fail a e
    | ok owned ↦ do
      created ← ask (
          create_secret (record {
            metadata = owned;
            type = account_secret_type;
            contents =
                (minio_access_key, creds.access_key) ∷ (minio_secret_key, creds.secret_key) ∷ [];
          }))
      elim created [
        | err e ↦ do
          undone ← ask (delete_service_account mc (name a.metadata.name))
          fail a (combine_result (wrap "unable to create secret" e) undone)
        | ok s ↦ do
          let a' = record a { status = record a.status { secret_name = some s.metadata.name } }
          r ← ask (update_account_status a')
          elim r [
            | err e ↦ do
              removed ← ask (delete_secret s.metadata)
              undone ← ask (delete_service_account mc (name a'.metadata.name))
              fail a' (
                  combine_result (combine_result (wrap "unable to update bucket status" e) removed)
                    undone)
            | ok a'' ↦ do
              event lib (account a'') "SecretCreated" ("Secret " <> (s.metadata.name <> " created"))
              stop a''
          ]
      ]
  ]

  -- After the loop: new keys, unless it failed.
  unfoldable pub add_keys :
      Client → BucketServiceAccount → Result (Unit {0}) → Program (Step BucketServiceAccount)
  add_keys mc a deleted = elim deleted [
    | err e ↦ fail a e
    | ok _ ↦ do
      r ← ask (add_service_account mc (name a.metadata.name))
      elim r [
        | err e ↦ fail a (wrap "unable to create service account" e)
        | ok creds ↦ save_keys mc a creds
      ]
  ]

  -- The user's service accounts are deleted, and one is made anew.
  unfoldable pub create_keys : Client → BucketServiceAccount → Program (Step BucketServiceAccount)
  create_keys mc a = do
    listed ← ask (list_service_accounts mc (name a.metadata.name))
    elim listed [
      | err e ↦ fail a (wrap "unable to list service accounts" e)
      | ok accounts ↦ do deleted ← delete_accounts mc accounts; add_keys mc a deleted
    ]

  -- `reconcileServiceAccount`
  unfoldable pub reconcile_service_account :
      Client → BucketServiceAccount → Program (Step BucketServiceAccount)
  reconcile_service_account mc a = do
    r ← ask (
        get_secret
          (record { namespace = a.metadata.namespace; name = a.metadata.name <> sa_secret_suffix }))
    elim r [ ok s ↦ go_on a | err e ↦ if is_not_found e then create_keys mc a else fail a e ]
