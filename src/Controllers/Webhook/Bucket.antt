-- ===== src/Controllers/Webhook/Bucket.antt =====
-- controllers/bucket_webhook.go
pub mod Defaults
pub mod Templates
pub mod Admission
use minio_bucket_controller.Base.{
  String, ◌<>◌, ◌==◌, not, ◌&&◌, List, [], ◌∷◌, false, Option, none, some, if◌then◌else◌,
}
use minio_bucket_controller.Base.Dict.{Dict, has_key}
use minio_bucket_controller.Errors.{Error, Result, ok, err, new, wrap, is_not_found}
use minio_bucket_controller.Api.Bucket.{
  Bucket, BucketAccess, bucket_reclaim_retain, minio_access_key, minio_secret_key, minio_endpoint,
  minio_bucket, minio_secure,
}
use minio_bucket_controller.Api.Provider.{BucketProvider}
use minio_bucket_controller.Api.Object.{Object, bucket}
use minio_bucket_controller.Libraries.{Libraries}
use minio_bucket_controller.Program.{Program, ret, ask, ◌>>=◌, get_provider}
use minio_bucket_controller.Controllers.Status.{error_text}
use minio_bucket_controller.Controllers.Provider.{default_provider}
use minio_bucket_controller.Controllers.Bucket.Reconcile.{default_secret_name}
use minio_bucket_controller.Controllers.Webhook.{
  Denial, error, unexpected, invalid, text, dict, admit, deny,
}

-- The object that `Default` was handed as it leaves it, and its error.
pub record Defaulted : Type 0 where
  pub object : Object
  pub denied : Option Denial

-- `secretName` as `Default` leaves it.
abbrev pub secret_name_or_default : Bucket → Option String
secret_name_or_default b = elim b.spec.secret_name [
  | none ↦ some (default_secret_name b)
  | some n ↦ if n == "" then some (default_secret_name b) else some n
]

-- The defaults that ask nobody.
unfoldable pub fill_defaults : Bucket → Bucket
fill_defaults b = record b {
  spec = record b.spec {
    reclaim_policy =
        if b.spec.reclaim_policy == "" then bucket_reclaim_retain else b.spec.reclaim_policy;
    secret_name = secret_name_or_default b;
    service_account =
        if b.spec.service_account == "" then b.metadata.name else b.spec.service_account;
  };
}

-- The defaults of a bucket, the provider's first.
unfoldable pub default_bucket : Bucket → Program Defaulted
unfolding default_provider fill_defaults
default_bucket b =
    if b.spec.provider == ""
    then (do
      found ← default_provider
      elim found [
        | err e ↦ ret (record { object = bucket b; denied = some (error e) })
        | ok none ↦ ret (record {
          object = bucket b;
          denied = some (error (new "no default BucketProvider found; please specify a provider"));
        })
        | ok (some d) ↦
            let b' = record b { spec = record b.spec { provider = d.metadata.name } } in
            ret (record { object = bucket (fill_defaults b'); denied = none })
      ])
    else ret (record { object = bucket (fill_defaults b); denied = none })

-- `Default`
unfoldable pub default_object : Object → Program Defaulted
unfolding default_bucket
default_object (bucket b) = default_bucket b
default_object o = ret (record { object = o; denied = some (unexpected "expected a Bucket" o) })

-- The keys that a template may not write.
abbrev pub reserved_keys : List String
reserved_keys =
    minio_access_key ∷ minio_secret_key ∷ minio_endpoint ∷ minio_bucket ∷ minio_secure ∷ []

-- The first reserved key among the templates.
unfoldable pub first_reserved : List String → Dict String → Option String
first_reserved [] m = none
first_reserved (k ∷ ks) m = if has_key k m then some k else first_reserved ks m

-- `s3v1alpha1.BucketAccess{}`
abbrev pub no_access : BucketAccess
no_access = record { access_key = ""; secret_key = ""; endpoint = ""; bucket = ""; secure = false }

-- `ValidateDelete`
unfoldable pub validate_delete : Object → Program (Option Denial)
validate_delete o = admit

module _ (lib : Libraries) where
  -- The loop over the templates, each tried on the zero access.
  unfoldable pub try_templates : Dict String → Option Error
  try_templates [] = none
  try_templates ((k, v) ∷ m) = elim (lib.parse_template v) [
    | err e ↦ some (wrap (k <> ": unable to parse secret template") e)
    | ok _ ↦ elim (lib.execute_template v no_access) [
      | err e ↦ some (wrap (k <> ": unable to execute secret template") e)
      | ok t ↦ try_templates m
    ]
  ]

  -- `validateTemplate`
  unfoldable pub validate_template : Dict String → Option Error
  unfolding try_templates first_reserved
  validate_template m = elim (first_reserved reserved_keys m) [
    | some k ↦ some (new ("cannot contain " <> k))
    | none ↦ try_templates m
  ]

  -- The checks that `ValidateCreate` and `ValidateUpdate` end with.
  unfoldable pub validate_spec : Bucket → Program (Option Denial)
  validate_spec b = do
    r ← ask (get_provider (record { namespace = ""; name = b.spec.provider }))
    elim r [
      | err e ↦
          if is_not_found e
          then deny (
              invalid ("spec" ∷ "provider" ∷ []) (text b.spec.provider)
                "referenced BucketProvider not found")
          else deny (error e)
      | ok p ↦ elim (validate_template b.spec.secret_template) [
        | some e ↦ deny (
            invalid ("spec" ∷ "secretTemplate" ∷ []) (dict b.spec.secret_template)
              (error_text lib e))
        | none ↦ admit
      ]
    ]

  -- `ValidateCreate`
  unfoldable pub validate_create : Object → Program (Option Denial)
  unfolding validate_spec
  validate_create (bucket b) = validate_spec b
  validate_create o = deny (unexpected "expected a Bucket" o)

  -- The provider of a bucket may be set once.
  unfoldable pub validate_change : Bucket → Bucket → Program (Option Denial)
  validate_change old b =
      if not (old.spec.provider == "") && not (old.spec.provider == b.spec.provider)
      then deny (
          invalid ("spec" ∷ "provider" ∷ []) (text b.spec.provider)
            "cannot change provider once set")
      else validate_spec b

  -- `ValidateUpdate`
  unfoldable pub validate_update : Object → Object → Program (Option Denial)
  unfolding validate_change validate_spec
  validate_update (bucket old) (bucket b) = validate_change old b
  validate_update (bucket old) n = deny (unexpected "expected a Bucket" n)
  validate_update o n = deny (unexpected "expected a Bucket" o)
