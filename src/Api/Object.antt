-- ===== src/Api/Object.antt =====
-- `runtime.Object`: what a webhook or an owner reference is handed, by its dynamic type. The last
-- constructor is an object of any other type, with its metadata if it has the accessor for it.
use minio_bucket_controller.Base.{Option, some}
use minio_bucket_controller.Api.Meta.{ObjectMeta}
use minio_bucket_controller.Api.Bucket.{Bucket}
use minio_bucket_controller.Api.Provider.{BucketProvider}
use minio_bucket_controller.Api.Account.{BucketServiceAccount}
use minio_bucket_controller.Api.Secret.{Secret}

pub data Object : Type 0 where
  bucket : Bucket → Object
  provider : BucketProvider → Object
  account : BucketServiceAccount → Object
  secret : Secret → Object
  other : Option ObjectMeta → Object

-- What an interface value holds: a pointer to an object, or a secret by value.
pub data Value : Type 0 where
  pointer : Object → Value
  secret_value : Secret → Value

-- The `metav1.ObjectMetaAccessor` of an object, if it is one.
abbrev pub object_meta : Object → Option ObjectMeta
object_meta (bucket b) = some b.metadata
object_meta (provider p) = some p.metadata
object_meta (account a) = some a.metadata
object_meta (secret s) = some s.metadata
object_meta (other m) = m
