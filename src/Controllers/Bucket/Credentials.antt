-- ===== src/Controllers/Bucket/Credentials.antt =====
-- controllers/bucket_controller.go: `reconcileSecret`
pub mod Laws
pub mod KeysSecret
use minio_bucket_controller.Base.{
  ℕ, String, ◌<>◌, ◌==◌, Bool, true, false, not, [], ◌∷◌, Option, none, some, if◌then◌else◌,
}
use minio_bucket_controller.Base.Dict.{Dict, insert, lookup_text}
use minio_bucket_controller.Errors.{
  Result, Error, ok, err, wrap, is_not_found, ignore_not_found, combine_result,
}
use minio_bucket_controller.Api.Meta.{named}
use minio_bucket_controller.Api.Bucket.{
  Bucket, BucketAccess, bucket_access_secret_type, minio_bucket, minio_access_key, minio_secret_key,
  minio_endpoint, minio_secure,
}
use minio_bucket_controller.Api.Secret.{Secret}
use minio_bucket_controller.Api.Object.{bucket, secret, pointer, secret_value}
use minio_bucket_controller.Libraries.{Libraries}
use minio_bucket_controller.Mc.Client.{Client, endpoint, secure}
use minio_bucket_controller.Program.{
  Program, ret, halt, ask, ◌>>=◌, ◌>>◌, get_secret, create_secret, update_secret, delete_secret,
  update_bucket_status, delete_service_account,
}
use minio_bucket_controller.Recorder.{event}
use minio_bucket_controller.Controllers.Status.{Step, go_on, stop, fail, name, sa_secret_suffix}

-- `time.Second`
abbrev pub second : ℕ
second = 1000000000

-- `strconv.FormatBool`
abbrev pub format_bool : Bool → String
format_bool true = "true"
format_bool false = "false"

-- The access that the templates are given.
abbrev pub access_of : Client → Bucket → Secret → BucketAccess
access_of mc b sa_secret = record {
  access_key = lookup_text minio_access_key sa_secret.contents;
  secret_key = lookup_text minio_secret_key sa_secret.contents;
  endpoint = endpoint mc;
  bucket = b.metadata.name;
  secure = secure mc;
}

-- The entries that every bucket's secret has.
abbrev pub access_entries : BucketAccess → Dict String
access_entries a =
    (minio_bucket, a.bucket)
    ∷ (minio_access_key, a.access_key)
    ∷ (minio_secret_key, a.secret_key)
    ∷ (minio_endpoint, a.endpoint)
    ∷ (minio_secure, format_bool a.secure)
    ∷ []

-- What is found under the secret's name, and whether that is to be updated.
pub record Existing : Type 0 where
  pub old : Secret
  pub update : Bool

module _ (lib : Libraries) where
  -- The loop over the templates, which writes each one's text under its key.
  unfoldable pub apply_templates : BucketAccess → Dict String → Dict String → Result (Dict String)
  apply_templates a [] entries = ok entries
  apply_templates a ((k, v) ∷ templates) entries = elim (lib.parse_template v) [
    | err e ↦ err (wrap (k <> ": unable to parse secret template") e)
    | ok _ ↦ elim (lib.execute_template v a) [
      | err e ↦ err (wrap (k <> ": unable to execute secret template") e)
      | ok text ↦ apply_templates a templates (insert k text entries)
    ]
  ]

  -- A secret of another name than the spec's is deleted.
  unfoldable pub delete_old_secret : Bucket → String → Program (Result (Unit {0}))
  unfolding event
  delete_old_secret b wanted = elim b.status.secret_name [
    | none ↦ ret (ok tt)
    | some old ↦ if wanted == old then ret (ok tt) else (do
      r ← ask (delete_secret (named old b.metadata.namespace))
      elim r [
        | err e ↦
            if is_not_found e then ret (ok tt) else ret (err (wrap "unable to delete old secret" e))
        | ok _ ↦ do
          event lib (bucket b) "SecretDeleted" ("Secret " <> (old <> " deleted"))
          ret (ok tt)
      ])
  ]

  unfoldable pub find_secret : Bucket → String → Program (Result Existing)
  find_secret b wanted = do
    r ← ask (get_secret (record { namespace = b.metadata.namespace; name = wanted }))
    elim r [
      | ok s ↦ ret (ok (record { old = s; update = true }))
      | err e ↦
          if is_not_found e
          then ret (
              ok (record {
                old = record {
                  metadata = named wanted b.metadata.namespace;
                  type = "";
                  contents = [];
                };
                update = false;
              }))
          else ret (err (wrap "unable to get secret" e))
    ]

  -- The secret is updated, or created and written to the bucket's status.
  unfoldable pub save_secret : Client → Bucket → Existing → Secret → Program (Step Bucket)
  unfolding event
  save_secret mc b found s =
      if found.update
      then (do
        r ← ask (update_secret s)
        elim r [
          | err e ↦ fail b (wrap "unable to update secret" e)
          | ok s' ↦ do
            event lib (bucket b) "SecretUpdated"
                ("Secret " <> (found.old.metadata.name <> " updated"))
            go_on b
        ])
      else (do
        created ← ask (create_secret s)
        elim created [
          | err e ↦ do
            undone ← ask (delete_service_account mc (name b.metadata.name))
            fail b (combine_result (wrap "unable to create secret" e) undone)
          | ok s' ↦ do
            let b' = record b { status = record b.status { secret_name = some s'.metadata.name } }
            r ← ask (update_bucket_status b')
            elim r [
              | err e ↦ do
                removed ← ask (delete_secret found.old.metadata)
                undone ← ask (delete_service_account mc (name b'.metadata.name))
                fail b' (
                    combine_result
                      (combine_result (wrap "unable to update bucket status" e) removed) undone)
              | ok b'' ↦ do
                event lib (bucket b'') "SecretCreated"
                    ("Secret " <> (found.old.metadata.name <> " created"))
                go_on b''
            ]
        ])

  -- The comparison hands a secret by value and a pointer to `DeepEqual`.
  unfoldable pub save_if_changed : Client → Bucket → Existing → Secret → Program (Step Bucket)
  save_if_changed mc b found s =
      if lib.deep_equal (secret_value found.old) (pointer (secret s))
      then go_on b
      else save_secret mc b found s

  -- The secret as it should be: the account's keys, the templates, and the bucket as controller.
  unfoldable pub write_secret : Client → Bucket → Existing → Program (Step Bucket)
  write_secret mc b found = do
    r ← ask (
        get_secret (record {
          namespace = b.metadata.namespace;
          name = b.spec.service_account <> sa_secret_suffix;
        }))
    elim r [
      | err e ↦
          ret (record {
            object = b;
            requeue_after = second;
            done = false;
            error = ignore_not_found e;
          })
      | ok sa_secret ↦
          let access = access_of mc b sa_secret in
          elim (apply_templates access b.spec.secret_template (access_entries access)) [
            | err e ↦ fail b e
            | ok entries ↦
                let labelled = record found.old.metadata { labels = b.metadata.labels } in
                elim (lib.set_controller_reference (bucket b) labelled) [
                  | err e ↦ do
                    undone ← ask (delete_service_account mc (name b.metadata.name))
                    fail b (combine_result (wrap "unable to set controller reference" e) undone)
                  | ok owned ↦
                      let s : Secret = record {
                        metadata = owned;
                        type = bucket_access_secret_type;
                        contents = entries;
                      } in
                      save_if_changed mc b found s
                ]
          ]
    ]

  -- `reconcileSecret`, which panics on a spec with no secret name.
  unfoldable pub reconcile_secret : Client → Bucket → Program (Step Bucket)
  reconcile_secret mc b = elim b.spec.secret_name [
    | none ↦ halt
    | some wanted ↦ do
      deleted ← delete_old_secret b wanted
      elim deleted [
        | err e ↦ fail b e
        | ok _ ↦ do
          existing ← find_secret b wanted
          elim existing [ err e ↦ fail b e | ok found ↦ write_secret mc b found ]
      ]
  ]
