-- ===== src/Controllers/Webhook/Bucket/Templates.antt =====
-- controllers/bucket_webhook.go: `validateTemplate`, and the entries of a bucket's secret.
use minio_bucket_controller.Base.{
  String, ◌≡◌, ◌∙◌, eq_iff, false, List, [], ◌∷◌, none, some, All, arith, Option-cases, inl, inr,
}
use minio_bucket_controller.Base.Dict.{Dict, lookup, insert, has_key, lookup-insert}
use minio_bucket_controller.Errors.{ok}
use minio_bucket_controller.Api.Bucket.{
  BucketAccess, minio_access_key, minio_secret_key, minio_endpoint, minio_bucket, minio_secure,
}
use minio_bucket_controller.Libraries.{Libraries}
use minio_bucket_controller.Controllers.Bucket.Credentials.{
  apply_templates, access_entries, format_bool,
}
use minio_bucket_controller.Controllers.Webhook.Bucket.{
  reserved_keys, first_reserved, validate_template,
}

first_reserved-none :
    (ks : List String) (m : Dict String)
    → first_reserved ks m ≡ none
    → All (λ k. has_key k m ≡ false) ks
unfolding first_reserved
first_reserved-none [] m e = tt
first_reserved-none (k ∷ ks) m e = ground (arith, first_reserved-none ks m)

lookup-insert_other :
    (j k v : String) (m entries : Dict String)
    → has_key k ((j, v) ∷ m) ≡ false
    → (text : String) → lookup k (insert j text entries) ≡ lookup k entries
lookup-insert_other j k v m entries free text =
    ground (arith, eq_iff j k, lookup-insert j k text entries)

has_key_rest :
    (j k v : String) (m : Dict String) → has_key k ((j, v) ∷ m) ≡ false → has_key k m ≡ false
has_key_rest j k v m free = ground arith

module _ (lib : Libraries) where
  -- Templates leave an entry alone whose key none of them has.
  lookup-apply_templates :
      (a : BucketAccess) (k : String) (m entries d : Dict String)
      → has_key k m ≡ false
      → apply_templates lib a m entries ≡ ok d
      → lookup k d ≡ lookup k entries
  unfolding apply_templates
  lookup-apply_templates a k [] entries d free e = ground arith
  lookup-apply_templates a k ((j, v) ∷ m) entries d free e =
      let rest : (text : String)
          → apply_templates lib a m (insert j text entries) ≡ ok d
          → lookup k d ≡ lookup k entries =
        λ text e.
          lookup-apply_templates a k m (insert j text entries) d (has_key_rest j k v m free) e
          ∙ lookup-insert_other j k v m entries free text in
      grind (arith, rest)

  template_keys-free :
      (m : Dict String)
      → validate_template lib m ≡ none
      → All (λ k. has_key k m ≡ false) reserved_keys
  unfolding validate_template
  template_keys-free m v = elim (Option-cases (first_reserved reserved_keys m)) [
    | inl free ↦ first_reserved-none reserved_keys m free
    | inr (k, taken) ↦ ground arith
  ]

  -- Where the webhook lets the templates pass, and the reconciler can run them, each of the five
  -- entries of the secret that describe the access is as the access has it.
  pub apply_templates-credentials :
      (a : BucketAccess) (m d : Dict String)
      → validate_template lib m ≡ none
      → apply_templates lib a m (access_entries a) ≡ ok d
      → (lookup minio_access_key d ≡ some a.access_key)
        × (lookup minio_secret_key d ≡ some a.secret_key)
        × (lookup minio_endpoint d ≡ some a.endpoint)
        × (lookup minio_bucket d ≡ some a.bucket)
        × (lookup minio_secure d ≡ some (format_bool a.secure))
  apply_templates-credentials a m d v e =
      let free = template_keys-free m v in
      (
        lookup-apply_templates a minio_access_key m _ d free.0 e,
        lookup-apply_templates a minio_secret_key m _ d free.1.0 e,
        lookup-apply_templates a minio_endpoint m _ d free.1.1.0 e,
        lookup-apply_templates a minio_bucket m _ d free.1.1.1.0 e,
        lookup-apply_templates a minio_secure m _ d free.1.1.1.1.0 e,
      )
