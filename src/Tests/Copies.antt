-- ===== src/Tests/Copies.antt =====
-- The theorems on deep copies, on a bucket and a list of one in a small memory.
use minio_bucket_controller.Base.{
  ◌≡◌, refl, String, [], ◌∷◌, Option, none, some, eqb, if◌then◌else◌, arith, inl, inr,
}
use minio_bucket_controller.Api.Meta.{Condition, ObjectMeta, named}
use minio_bucket_controller.Api.Bucket.{Bucket}
use minio_bucket_controller.Api.DeepCopy.Memory.{
  StoredBucket, StoredList, text_cell, map_cell, conditions_cell, buckets_cell, Memory, write, Copy,
  pure, extended,
}
use minio_bucket_controller.Api.DeepCopy.View.{ResourceList, view_bucket, view_list, buckets_of}
use minio_bucket_controller.Api.DeepCopy.Methods.{bucket_copy, bucket_list_copy}
use minio_bucket_controller.Api.DeepCopy.Structs.{DeepLaws}
use minio_bucket_controller.Api.DeepCopy.Objects.{
  bucket_copy-view, bucket_copy-original, bucket_copy-copy, bucket_list_copy-view,
  bucket_list_copy-copy,
}
use minio_bucket_controller.Tests.Sample.{test_condition}

-- Metadata without pointers.
abbrev view_meta : Memory ObjectMeta → ObjectMeta → Option ObjectMeta
view_meta m d = some d

abbrev copy_meta : ObjectMeta → Copy ObjectMeta ObjectMeta
copy_meta d = pure d

abbrev same_condition : Condition → Condition
same_condition c = c

plain-DeepLaws : DeepLaws view_meta copy_meta same_condition
plain-DeepLaws = record {
  view_meta-IsLocal = λ m m' s v agree e. e;
  copy_meta-IsDeep = λ m s v e. (omega arith, λ a l h. refl, λ m2 agree. e);
  copy_condition_lem = λ c. refl;
}

abbrev stored_bucket : StoredBucket ObjectMeta
stored_bucket = record {
  metadata = named "images" "shop";
  spec = record {
    provider = "minio";
    service_account = "";
    reclaim_policy = "Retain";
    secret_name = some 0;
    secret_template = some 1;
  };
  status = record { endpoint = none; secret_name = some 0; conditions = some 2; phase = "Ready" };
}

abbrev small_memory : Memory ObjectMeta
small_memory = record {
  next = 4;
  cell = λ a.
      if eqb a 0
      then text_cell "images-bucket-credentials"
      else if eqb a 1
      then map_cell (("S3_BUCKET", "{{ .Bucket }}") ∷ ("S3_KEY", "{{ .AccessKey }}") ∷ [])
      else if eqb a 2
      then conditions_cell (test_condition ∷ [])
      else buckets_cell (stored_bucket ∷ []);
}

abbrev stored_list : StoredList String
stored_list = record { metadata = "42"; items = some 3 }

abbrev view_list_meta : Memory ObjectMeta → String → Option String
view_list_meta m s = some s

abbrev copy_list_meta : String → Copy ObjectMeta String
copy_list_meta s = pure s

-- What the bucket and the list stand for.
abbrev seen_bucket : Bucket
seen_bucket = record {
  metadata = named "images" "shop";
  spec = record {
    provider = "minio";
    service_account = "";
    reclaim_policy = "Retain";
    secret_name = some "images-bucket-credentials";
    secret_template = ("S3_BUCKET", "{{ .Bucket }}") ∷ ("S3_KEY", "{{ .AccessKey }}") ∷ [];
  };
  status = record {
    endpoint = none;
    secret_name = some "images-bucket-credentials";
    conditions = test_condition ∷ [];
    phase = "Ready";
  };
}

abbrev seen_list : ResourceList String Bucket
seen_list = record { metadata = "42"; items = seen_bucket ∷ [] }

-- The copies, and the memory after them.
abbrev copied_bucket : StoredBucket ObjectMeta
copied_bucket = record {
  metadata = named "images" "shop";
  spec = record stored_bucket.spec { secret_name = some 4; secret_template = some 5 };
  status = record stored_bucket.status { secret_name = some 6; conditions = some 7 };
}

abbrev copied_memory : Memory ObjectMeta
copied_memory = extended (conditions_cell (test_condition ∷ [])) (
    extended (text_cell "images-bucket-credentials") (
      extended (map_cell (("S3_BUCKET", "{{ .Bucket }}") ∷ ("S3_KEY", "{{ .AccessKey }}") ∷ []))
        (extended (text_cell "images-bucket-credentials") small_memory)))

abbrev copied_list : StoredList String
copied_list = record { metadata = "42"; items = some 8 }

abbrev copied_list_memory : Memory ObjectMeta
copied_list_memory = extended (buckets_cell (copied_bucket ∷ [])) copied_memory

bucket_copy-view_example :
    (b' : StoredBucket ObjectMeta) × (m' : Memory ObjectMeta) × (bucket_copy copy_meta
        same_condition
        (some stored_bucket)
        small_memory
      ≡ some (some b', m'))
    × (view_bucket view_meta m' b' ≡ some seen_bucket)
    × (view_bucket view_meta m' stored_bucket ≡ some seen_bucket)
bucket_copy-view_example =
    bucket_copy-view view_meta copy_meta same_condition plain-DeepLaws small_memory stored_bucket
      seen_bucket refl

bucket_copy-original_example :
    view_bucket view_meta (write copied_memory 5 (map_cell [])) stored_bucket ≡ some seen_bucket
bucket_copy-original_example =
    bucket_copy-original view_meta copy_meta same_condition plain-DeepLaws small_memory
      copied_memory stored_bucket copied_bucket seen_bucket 5 (map_cell []) refl refl
      (inr (inl refl))

bucket_copy-copy_example :
    view_bucket view_meta (write copied_memory 1 (map_cell [])) copied_bucket ≡ some seen_bucket
bucket_copy-copy_example =
    bucket_copy-copy view_meta copy_meta same_condition plain-DeepLaws small_memory copied_memory
      stored_bucket copied_bucket seen_bucket 1 (map_cell []) refl refl (omega arith)

bucket_list_copy-copy_example :
    view_list view_list_meta buckets_of
      (view_bucket view_meta)
      (write copied_list_memory 3 (buckets_cell []))
      copied_list
    ≡ some seen_list
bucket_list_copy-copy_example =
    bucket_list_copy-copy view_meta copy_meta same_condition plain-DeepLaws view_list_meta
      copy_list_meta (λ m m' s v agree e. e)
      (λ m s v e. (omega arith, λ a l h. refl, λ m2 agree. e)) small_memory copied_list_memory
      stored_list copied_list seen_list 3 (buckets_cell []) refl refl (omega arith)

bucket_list_copy-view_example :
    (l' : StoredList String) × (m' : Memory ObjectMeta) × (bucket_list_copy copy_meta same_condition
        copy_list_meta
        (some stored_list)
        small_memory
      ≡ some (some l', m'))
    × (view_list view_list_meta buckets_of (view_bucket view_meta) m' l' ≡ some seen_list)
    × (view_list view_list_meta buckets_of (view_bucket view_meta) m' stored_list ≡ some seen_list)
bucket_list_copy-view_example =
    bucket_list_copy-view view_meta copy_meta same_condition plain-DeepLaws view_list_meta
      copy_list_meta (λ m m' s v agree e. e)
      (λ m s v e. (omega arith, λ a l h. refl, λ m2 agree. e)) small_memory stored_list seen_list
      refl
