-- ===== src/Controllers/Bucket/Credentials/KeysSecret.antt =====
-- controllers/: the secret in which the reconciler of accounts keeps the keys, as the reconciler of
-- buckets reads it.
use minio_bucket_controller.Base.{String, ◌≡◌, [], ◌∷◌, Option, none, some, arith}
use mathlib.Core.Path.{sym, ap}
use mathlib.Core.Option.{some-injective}
use minio_bucket_controller.Base.Dict.{lookup_text}
use minio_bucket_controller.Errors.{ok}
use minio_bucket_controller.Api.Bucket.{Bucket, minio_access_key, minio_secret_key}
use minio_bucket_controller.Api.Account.{BucketServiceAccount}
use minio_bucket_controller.Api.Secret.{Secret}
use minio_bucket_controller.Libraries.{Libraries}
use minio_bucket_controller.Mc.Client.{Client}
use minio_bucket_controller.Program.{Call, Credentials, add_service_account, create_secret}
use minio_bucket_controller.Program.Contract.{History, Contract, Meets, Meets-mono}
use minio_bucket_controller.Controllers.Status.{Step, name}
use minio_bucket_controller.Controllers.Account.Keys.{reconcile_service_account}
use minio_bucket_controller.Controllers.Account.Keys.Laws.{
  MayCall, made_entries, keys, Ended, reconcile_service_account-keys,
}
use minio_bucket_controller.Controllers.Bucket.Credentials.{access_of}

-- The last keys that MinIO replied.
abbrev pub made_keys : History → Option Credentials
made_keys [] = none
made_keys ((add_service_account mc user, ok creds) ∷ h) = some creds
made_keys ((c, r) ∷ h) = made_keys h

-- A bucket's access that is read from this secret has these keys.
abbrev pub ReadsBack : Client → Bucket → Option Credentials → Secret → Type 0
ReadsBack mc b none s = ⊥
ReadsBack mc b (some creds) s =
    ((access_of mc b s).access_key ≡ creds.access_key)
    × ((access_of mc b s).secret_key ≡ creds.secret_key)

abbrev pub MayCreate : Client → Bucket → History → Call → Type 0
MayCreate mc b h (create_secret s) = ReadsBack mc b (made_keys h) s
MayCreate mc b h c = Unit

abbrev pub read_back : Client → Bucket → Contract (Step BucketServiceAccount)
read_back mc b = record { may_call = MayCreate mc b; may_return = λ h s. Unit; may_halt = λ h. ⊥ }

made_entries-ReadsBack :
    (mc : Client) (b : Bucket) (h : History) (s : Secret)
    → made_entries h ≡ some s.contents
    → ReadsBack mc b (made_keys h) s
made_entries-ReadsBack mc b [] s e = ground arith
made_entries-ReadsBack mc b ((add_service_account mc' user, ok creds) ∷ h) s e =
    let same = sym (some-injective _ _ e) in
    (ap (λ d. lookup_text minio_access_key d) same, ap (λ d. lookup_text minio_secret_key d) same)
made_entries-ReadsBack mc b ((c, r) ∷ h) s e = made_entries-ReadsBack mc b h s e

MayCreate_lem :
    (mc mc' : Client) (user : String) (b : Bucket) (h : History) (c : Call)
    → MayCall mc' user h c
    → MayCreate mc b h c
MayCreate_lem mc mc' user b h (create_secret s) p = made_entries-ReadsBack mc b h s p
MayCreate_lem mc mc' user b h _ p = tt

-- Whatever is replied, the secret that the reconciler of accounts creates is one from which the
-- reconciler of buckets, for any bucket and any client, reads the keys that MinIO replied last.
pub access_of-reconcile_service_account :
    (lib : Libraries) (mc mc' : Client) (a : BucketServiceAccount) (b : Bucket)
    → Meets (read_back mc b) [] (reconcile_service_account lib mc' a)
access_of-reconcile_service_account lib mc mc' a b =
    Meets-mono (keys mc' (name a.metadata.name) (Ended a)) (read_back mc b) []
      (reconcile_service_account lib mc' a) (MayCreate_lem mc mc' (name a.metadata.name) b)
      (λ h s p. tt) (λ h p. p) (reconcile_service_account-keys lib mc' a)
