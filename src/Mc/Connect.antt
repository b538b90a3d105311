-- ===== src/Mc/Connect.antt =====
-- pkg/mc/minio.go: the constructor of the client, and generated passwords.
pub mod Password
use minio_bucket_controller.Base.{String}
use minio_bucket_controller.Errors.{Result, ok, err, wrap}
use minio_bucket_controller.Go.Base64.{encode}
use minio_bucket_controller.Libraries.{Libraries}
use minio_bucket_controller.Mc.Client.{Connection, Client}
use minio_bucket_controller.Program.{Program, ret, halt, ask, ◌>>=◌, random_bytes}

module _ (lib : Libraries) where
  -- `New`
  unfoldable pub new_mc : Connection → Result Client
  new_mc c = elim (lib.new_admin_client c) [
    | err e ↦ err (wrap "failed to create minio admin client" e)
    | ok ac ↦ elim (lib.new_s3_client c) [
      | err e ↦ err (wrap "failed to create minio client" e)
      | ok s3 ↦ ok (record { admin_client = ac; client = s3 })
    ]
  ]

-- `GeneratePassword`, which ends the process where there is no randomness.
unfoldable pub generate_password : Program String
generate_password = do r ← ask (random_bytes 32); elim r [ err e ↦ halt | ok b ↦ ret (encode b) ]
