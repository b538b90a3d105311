-- ===== src/Start/Identity.antt =====
-- main.go: the name of the controller's own service account, from the client's certificate, its
-- token or the flag. Where it is not found the process ends.
pub mod Laws
use minio_bucket_controller.Base.{String, ◌==◌, List, [], ◌∷◌, Option, none, some, if◌then◌else◌}
use minio_bucket_controller.Errors.{Result, ok, err}
use minio_bucket_controller.Go.Base64.{decode}
use minio_bucket_controller.Go.Strings.{split}
use minio_bucket_controller.Libraries.{Libraries}

-- What is read of `rest.Config`; a certificate that is missing is nil.
pub record Config : Type 0 where
  pub cert_data : Option String
  pub bearer_token : String

abbrev pub success : Result String → Option String
success (ok s) = some s
success (err e) = none

-- The second part of a token of three.
abbrev pub payload : List String → Option String
payload (header ∷ body ∷ signature ∷ []) = some body
payload parts = none

module _ (lib : Libraries) where
  -- The subject of a client certificate.
  unfoldable pub cert_subject : String → Option String
  cert_subject pem = elim (lib.pem_decode pem) [
    | none ↦ none
    | some block ↦ success (lib.common_name block)
  ]

  -- The subject of a token.
  unfoldable pub token_subject : String → Option String
  token_subject token = elim (payload (split token b'.')) [
    | none ↦ none
    | some body ↦ elim (decode body) [ err e ↦ none | ok bytes ↦ success (lib.json_subject bytes) ]
  ]

  -- The switch of `main`, with the flag's value.
  unfoldable pub resolve : Config → String → Option String
  resolve c service_account = elim c.cert_data [
    | some pem ↦ cert_subject pem
    | none ↦
        if c.bearer_token == ""
        then (if service_account == "" then none else some service_account)
        else token_subject c.bearer_token
  ]
