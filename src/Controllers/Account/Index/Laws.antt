-- ===== src/Controllers/Account/Index/Laws.antt =====
-- controllers/bucketserviceaccount_controller.go and controllers/utils.go: the index of buckets.
use minio_bucket_controller.Base.{◌≡◌, ◌≤◌, [], ◌∷◌, List, refl}
use minio_bucket_controller.Errors.{ok}
use minio_bucket_controller.Api.Meta.{OwnerReference}
use minio_bucket_controller.Api.Bucket.{Bucket}
use minio_bucket_controller.Api.Account.{BucketServiceAccount}
use minio_bucket_controller.Api.Object.{account}
use minio_bucket_controller.Libraries.{Libraries, GroupVersionKind}
use minio_bucket_controller.Libraries.Laws.{OwnerLaws}
use minio_bucket_controller.Controllers.OwnerRef.{controller_ref, force_controller_reference}
use minio_bucket_controller.Controllers.OwnerRef.Laws.{
  IsDistinct, IsParsed, count_controllers, force_controller_reference-controller,
}
use minio_bucket_controller.Controllers.Account.Index.{gvk, index_owner}

-- The kind of an account in the scheme.
abbrev pub account_kind : GroupVersionKind
account_kind = record { group_version = gvk; kind = "BucketServiceAccount" }

module _ (lib : Libraries) (laws : OwnerLaws lib) where
  -- Where the bucket's owners are as the API server keeps them (no two references to one object, every
  -- API version parses, one controller at most), the account's kind is the one of the scheme, and
  -- `GetControllerOf` returns the first controller, forcing the account to be the bucket's
  -- controller succeeds, and the index then has the bucket under the account's name and no other.
  pub index_owner-force_controller_reference :
      (a : BucketServiceAccount) (b : Bucket)
      → IsDistinct lib b.metadata.owner_references
      → IsParsed lib b.metadata.owner_references
      → count_controllers b.metadata.owner_references ≤ 1
      → lib.gvk_for_object (account a) ≡ ok account_kind
      → (owners : List OwnerReference) × (force_controller_reference lib
            (account a)
            a.metadata
            b.metadata
          ≡ ok (record b.metadata { owner_references = owners }))
        × (index_owner lib (record b { metadata = record b.metadata { owner_references = owners } })
            ≡ a.metadata.name ∷ [])
  unfolding index_owner controller_ref
  index_owner-force_controller_reference a b d p n known =
      let forced =
        force_controller_reference-controller lib laws (account a) a.metadata b.metadata
          account_kind d p n known in
      (forced.0, forced.1, rw (forced.2, index_owner) refl)
