-- ===== src/Controllers/Webhook.antt =====
-- controllers/*_webhook.go: what the admission webhooks answer.
pub mod Bucket
pub mod Provider
pub mod Account
use minio_bucket_controller.Base.{String, List, Option, none, some}
use minio_bucket_controller.Base.Dict.{Dict}
use minio_bucket_controller.Errors.{Error}
use minio_bucket_controller.Api.Provider.{SecretRef}
use minio_bucket_controller.Api.Object.{Object}
use minio_bucket_controller.Program.{Program, ret}

-- The value that a `field.Error` shows.
pub data FieldValue : Type 0 where
  text : String → FieldValue
  dict : Dict String → FieldValue
  reference : SecretRef → FieldValue

-- The errors with which a request is denied. A text that names the dynamic type of an object is
-- given by its first words and the object.
pub data Denial : Type 0 where
  error : Error → Denial
  unexpected : String → Object → Denial
  -- `field.Invalid(path, value, detail)`
  invalid : List String → FieldValue → String → Denial
  -- `apierrors.NewBadRequest`, `NewInternalError`, `NewForbidden`, `NewNotFound`, `NewConflict`
  bad_object : String → Object → Denial
  bad_request : String → Denial
  internal : Error → Denial
  forbidden : String → String → String → Denial
  missing : String → String → Denial
  conflict : String → String → String → Denial

-- `return nil, nil`
abbrev pub admit : Program (Option Denial)
admit = ret none

-- `return nil, err`
abbrev pub deny : Denial → Program (Option Denial)
deny d = ret (some d)
