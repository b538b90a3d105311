-- ===== src/Tests/Start.antt =====
-- The theorems on the start of the program, on its passwords and on its tokens, at samples.
use Prim.Native.String.{String, count}
use minio_bucket_controller.Base.{ℕ, ◌≡◌, refl, inl, List, [], ◌∷◌, none, some, arith}
use minio_bucket_controller.Errors.{ok}
use minio_bucket_controller.Go.Base64.{encode, decode}
use minio_bucket_controller.Mc.Connect.{generate_password}
use minio_bucket_controller.Mc.Connect.Password.{decode-generate_password, count-generate_password}
use minio_bucket_controller.Program.Contract.{Meets}
use minio_bucket_controller.Program.Run.{run}
use minio_bucket_controller.Start.{main, default_flags}
use minio_bucket_controller.Start.Identity.{resolve}
use minio_bucket_controller.Start.Identity.Laws.{
  token, with_token, resolve-has_credentials, resolve-encode, resolve-IsUrlOnly,
}
use minio_bucket_controller.Start.Ready.{readiness, main-readiness}
use minio_bucket_controller.Tests.Sample.{test_libraries}
use minio_bucket_controller.Tests.World.{random_world}

main-readiness_example :
    Meets
      (readiness default_flags test_libraries (with_token ""))
      []
      (main test_libraries (with_token "") default_flags)
main-readiness_example = main-readiness default_flags test_libraries (with_token "")

resolve-has_credentials_example :
    resolve test_libraries (with_token "a.b.c") "controller"
    ≡ resolve test_libraries (with_token "a.b.c") ""
resolve-has_credentials_example =
    resolve-has_credentials test_libraries (with_token "a.b.c") "controller" "" refl

-- `{"sub":"me"}`
abbrev claims : List ℕ
claims = 123 ∷ 34 ∷ 115 ∷ 117 ∷ 98 ∷ 34 ∷ 58 ∷ 34 ∷ 109 ∷ 101 ∷ 34 ∷ 125 ∷ []

claims_encoded : encode claims ≡ "eyJzdWIiOiJtZSJ9"
unfolding encode
claims_encoded = refl

resolve-encode_example :
    resolve test_libraries (with_token (token "eyJh" (encode claims) "c2ln")) ""
    ≡ some "system:serviceaccount:minio:controller"
resolve-encode_example =
    resolve-encode test_libraries "eyJh" "c2ln" "" "system:serviceaccount:minio:controller" claims
      (ground arith) (ground arith) (ground arith) refl

resolve-IsUrlOnly_example :
    resolve test_libraries (with_token (token "eyJh" "eyJz-dWI" "c2ln")) "" ≡ none
resolve-IsUrlOnly_example =
    resolve-IsUrlOnly test_libraries "eyJh" "eyJz" "dWI" "c2ln" "" "-" (ground arith) (ground arith)
      (ground arith) (ground arith) (inl refl)

-- 32 random bytes.
abbrev randomness : List ℕ
randomness =
    11 ∷ 48 ∷ 85 ∷ 122 ∷ 159 ∷ 196 ∷ 233 ∷ 14 ∷ 51 ∷ 88 ∷ 125 ∷ 162 ∷ 199 ∷ 236 ∷ 17 ∷ 54 ∷ 91 ∷ 128
    ∷ 165 ∷ 202 ∷ 239 ∷ 20 ∷ 57 ∷ 94 ∷ 131 ∷ 168 ∷ 205 ∷ 242 ∷ 23 ∷ 60 ∷ 97 ∷ 134 ∷ []

decode-generate_password_example :
    (p : String) × ((run (random_world randomness) generate_password [] tt).value ≡ some p)
    × (decode p ≡ ok randomness)
decode-generate_password_example =
    decode-generate_password (random_world randomness) tt randomness (ground arith) refl

count-generate_password_example :
    (p : String) × ((run (random_world randomness) generate_password [] tt).value ≡ some p)
    × (count p ≡ 43)
count-generate_password_example =
    count-generate_password (random_world randomness) tt randomness refl refl
