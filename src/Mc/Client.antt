-- ===== src/Mc/Client.antt =====
-- pkg/mc/minio.go, the client: an admin client and an S3 client, both known by what they were made
-- with, and the S3 client by the URL that `minio.New` gave it.
use minio_bucket_controller.Base.{String, ◌==◌, Bool}

pub record Url : Type 0 where
  pub scheme : String
  pub host : String

-- The arguments of `madmin.New` and `minio.New`.
pub record Connection : Type 0 where
  pub endpoint : String
  pub access_key : String
  pub secret_key : String
  pub secure : Bool

pub record AdminClient : Type 0 where
  pub connection : Connection

pub record S3Client : Type 0 where
  pub connection : Connection
  pub endpoint_url : Url

pub record Client : Type 0 where
  pub admin_client : AdminClient
  pub client : S3Client

abbrev pub url : Client → Url
url c = c.client.endpoint_url

abbrev pub endpoint : Client → String
endpoint c = c.client.endpoint_url.host

abbrev pub secure : Client → Bool
secure c = c.client.endpoint_url.scheme == "https"
