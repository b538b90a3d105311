-- ===== src/Controllers/Account/Index.antt =====
-- controllers/bucketserviceaccount_controller.go: the index of buckets by the account that controls
-- them, which `SetupWithManager` registers and `reconcilePolicies` lists by.
pub mod Laws
use minio_bucket_controller.Base.{
  ℕ, String, ◌==◌, not, ◌||◌, List, [], ◌∷◌, none, some, if◌then◌else◌,
}
use minio_bucket_controller.Api.Bucket.{Bucket}
use minio_bucket_controller.Libraries.{Libraries}

-- `gvk`, which is `GroupVersion.String()`
abbrev pub gvk : String
gvk = "s3.linka.cloud/v1alpha1"

-- The function that the index is made by.
unfoldable pub index_owner : Libraries → Bucket → List String
index_owner lib b = elim (lib.get_controller_of b.metadata.owner_references) [
  | none ↦ []
  | some owner ↦
      if not (owner.api_version == gvk) || not (owner.kind == "BucketServiceAccount")
      then []
      else owner.name ∷ []
]

-- The arguments with which `gc` is started: `5*time.Second` and `time.Minute`.
abbrev pub gc_frequency : ℕ
gc_frequency = 5000000000

abbrev pub gc_ttl : ℕ
gc_ttl = 60000000000
