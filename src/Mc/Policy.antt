-- ===== src/Mc/Policy.antt =====
-- pkg/mc/minio.go: the policy of a bucket.
use minio_bucket_controller.Base.{String, ◌<>◌, join, List, [], ◌∷◌}
use minio_bucket_controller.Errors.{ok, err}
use minio_bucket_controller.Libraries.{Libraries}
use minio_bucket_controller.Program.{Program, ret, halt}

-- The lines of the constant `policy`, with the bucket's name for `%[1]s`.
unfoldable pub policy_lines : String → List String
policy_lines bucket =
    "{"
    ∷ "    \"Version\": \"2012-10-17\","
    ∷ "    \"Statement\": ["
    ∷ "        {"
    ∷ "            \"Effect\": \"Allow\","
    ∷ "            \"Action\": ["
    ∷ "                \"s3:ListBucket\","
    ∷ "\t\t\t\t\"s3:GetBucketLocation\","
    ∷ "                \"s3:ListAllMyBuckets\""
    ∷ "            ],"
    ∷ "            \"Resource\": ["
    ∷ ("                \"arn:aws:s3:::" <> (bucket <> "\""))
    ∷ "            ]"
    ∷ "        },"
    ∷ "        {"
    ∷ "            \"Effect\": \"Allow\","
    ∷ "            \"Action\": ["
    ∷ "                \"s3:*\""
    ∷ "            ],"
    ∷ "            \"Resource\": ["
    ∷ ("                \"arn:aws:s3:::" <> (bucket <> "/*\""))
    ∷ "            ]"
    ∷ "        }"
    ∷ "    ]"
    ∷ "}"
    ∷ []

-- `fmt.Sprintf(policy, bucket)`
unfoldable pub policy_text : String → String
unfolding policy_lines join
policy_text bucket = join "\n" (policy_lines bucket)

-- `Policy`, which panics where the text is no JSON.
unfoldable pub policy : (lib : Libraries) → String → Program String
policy lib bucket = elim (lib.json_compact (policy_text bucket)) [ err e ↦ halt | ok b ↦ ret b ]
