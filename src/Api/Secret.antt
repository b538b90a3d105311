-- ===== src/Api/Secret.antt =====
-- The fields of `corev1.Secret` that the controllers use. The bytes of an entry are a text.
use minio_bucket_controller.Base.{String}
use minio_bucket_controller.Base.Dict.{Dict}
use minio_bucket_controller.Api.Meta.{ObjectMeta}

pub record Secret : Type 0 where
  pub metadata : ObjectMeta
  pub type : String
  pub contents : Dict String
