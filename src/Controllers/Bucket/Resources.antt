-- ===== src/Controllers/Bucket/Resources.antt =====
-- controllers/bucket_controller.go: `reconcileBucket` and `reconcileServiceAccount`
use minio_bucket_controller.Base.{◌<>◌, [], none, some, if◌then◌else◌}
use minio_bucket_controller.Errors.{Result, ok, err, new, wrap, is_not_found, combine_result}
use minio_bucket_controller.Api.Meta.{named}
use minio_bucket_controller.Api.Bucket.{Bucket}
use minio_bucket_controller.Api.Account.{BucketServiceAccount}
use minio_bucket_controller.Api.Object.{bucket, account, pointer}
use minio_bucket_controller.Libraries.{Libraries}
use minio_bucket_controller.Mc.Client.{Client, endpoint}
use minio_bucket_controller.Program.{
  Program, ret, ask, ◌>>=◌, ◌>>◌, bucket_exists, make_bucket, remove_bucket, update_bucket_status,
  get_account, create_account, update_bucket,
}
use minio_bucket_controller.Recorder.{event, warn}
use minio_bucket_controller.Controllers.Status.{Step, go_on, stop, fail, error_text}
use minio_bucket_controller.Controllers.OwnerRef.{force_controller_reference}

module _ (lib : Libraries) where
  -- The bucket is there: it is the controller's own if the status has an endpoint.
  unfoldable pub existing_bucket : Bucket → Program (Step Bucket)
  unfolding warn
  existing_bucket b = elim b.status.endpoint [
    | none ↦ do
      warn lib (bucket b) "BucketExists" ("bucket " <> (b.metadata.name <> " already exists"))
      fail b (new "conflict: bucket already exists")
    | some e ↦ go_on b
  ]

  -- It is created, and removed again if the endpoint cannot be written to the status.
  unfoldable pub create_bucket : Client → Bucket → Program (Step Bucket)
  unfolding event
  create_bucket mc b = do
    made ← ask (make_bucket mc b.metadata.name)
    elim made [
      | err e ↦ fail b (wrap "unable to create bucket" e)
      | ok _ ↦ do
        let b' = record b { status = record b.status { endpoint = some (endpoint mc) } }
        r ← ask (update_bucket_status b')
        elim r [
          | err e ↦ do
            undone ← ask (remove_bucket mc b'.metadata.name)
            fail b' (combine_result (wrap "unable to update bucket status" e) undone)
          | ok b'' ↦ do
            event lib (bucket b'') "BucketCreated" ("Bucket " <> (b''.metadata.name <> " created"))
            stop b''
        ]
    ]

  -- `reconcileBucket`
  unfoldable pub reconcile_bucket : Client → Bucket → Program (Step Bucket)
  unfolding existing_bucket create_bucket
  reconcile_bucket mc b = do
    exists ← ask (bucket_exists mc b.metadata.name)
    elim exists [
      | err e ↦ fail b (wrap "unable to check if bucket exists" e)
      | ok there ↦ if there then existing_bucket b else create_bucket mc b
    ]

  -- The account that a bucket without one creates.
  abbrev pub new_account : Bucket → BucketServiceAccount
  new_account b = record {
    metadata = named b.spec.service_account b.metadata.namespace;
    spec = record { provider = b.spec.provider };
    status = record { secret_name = none; conditions = []; phase = "" };
  }

  -- The account of the bucket, created where it is missing.
  unfoldable pub ensure_account : Bucket → Program (Result BucketServiceAccount)
  ensure_account b = do
    found ←
        ask
          (get_account (record { namespace = b.metadata.namespace; name = b.spec.service_account }))
    elim found [
      | ok sa ↦ ret (ok sa)
      | err e ↦
          if is_not_found e
          then (do
            created ← ask (create_account (new_account b))
            elim created [
              | err e' ↦ ret (err (wrap "unable to create service account" e'))
              | ok sa ↦ ret (ok sa)
            ])
          else ret (err (wrap "unable to get service account" e))
    ]

  -- `reconcileServiceAccount`; `%v` puts the text of the error in, and does not wrap it.
  unfoldable pub reconcile_service_account : Bucket → Program (Step Bucket)
  unfolding ensure_account force_controller_reference
  reconcile_service_account b = do
    ensured ← ensure_account b
    elim ensured [
      | err e ↦ fail b e
      | ok sa ↦ elim (force_controller_reference lib (account sa) sa.metadata b.metadata) [
        | err e ↦ fail b (new ("unable to set controller reference: " <> error_text lib e))
        | ok owned ↦
            let b' = record b { metadata = owned } in
            if lib.deep_equal (pointer (bucket b')) (pointer (bucket b)) then go_on b else (do
              r ← ask (update_bucket b')
              elim r [ err e ↦ fail b (wrap "unable to update bucket" e) | ok _ ↦ stop b ])
      ]
    ]
