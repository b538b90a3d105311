-- ===== src/Controllers/SecretRef.antt =====
-- controllers/secret_ref.go
use minio_bucket_controller.Base.{String, ◌<>◌, Option, none, some}
use minio_bucket_controller.Base.Dict.{lookup}
use minio_bucket_controller.Errors.{Result, ok, err, new, wrap, key_not_found}
use minio_bucket_controller.Api.Provider.{SecretRef}
use minio_bucket_controller.Libraries.{Libraries}
use minio_bucket_controller.Program.{Program, ret, ask, ◌>>=◌, get_secret}

-- `fetchSecretRef`
unfoldable pub fetch_secret_ref : Libraries → Option SecretRef → Program (Result String)
fetch_secret_ref lib none = ret (err (new "secret ref is nil"))
fetch_secret_ref lib (some ref) = do
  r ← ask (get_secret (record { namespace = ref.namespace; name = ref.name }))
  elim r [
    | err e ↦ ret (err e)
    | ok s ↦ elim (lookup ref.key s.contents) [
      | none ↦
          let place = s.metadata.namespace <> ("/" <> s.metadata.name) in
          ret (err (wrap (lib.quote ref.key <> (" in secret " <> place)) key_not_found))
      | some v ↦ ret (ok v)
    ]
  ]
