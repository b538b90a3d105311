-- ===== src/Controllers/History.antt =====
-- What a run has seen, read from its history: the object that it fetched first, and the calls that
-- succeeded.
use minio_bucket_controller.Base.{String, ◌≡◌, Bool, true, ◌⊎◌, [], ◌∷◌, Option, none, some}
use minio_bucket_controller.Errors.{ok, err, is_not_found}
use minio_bucket_controller.Api.Bucket.{Bucket}
use minio_bucket_controller.Program.{
  get_bucket, get_provider, make_bucket, force_remove_bucket, bucket_exists, create_secret,
  update_secret,
}
use minio_bucket_controller.Mc.Client.{Client}
use minio_bucket_controller.Program.Contract.{History}

-- The bucket that the first `Get` of a bucket in the run replied.
abbrev pub fetched_bucket : History → Option Bucket
fetched_bucket [] = none
fetched_bucket ((get_bucket k, ok b) ∷ h) = elim (fetched_bucket h) [
  | none ↦ some b
  | some b' ↦ some b'
]
fetched_bucket ((c, r) ∷ h) = fetched_bucket h

-- The run made this bucket.
abbrev pub Made : Client → String → History → Type 0
Made mc name [] = ⊥
Made mc name ((make_bucket mc' name', ok u) ∷ h) = ((mc ≡ mc') × (name ≡ name')) ⊎ Made mc name h
Made mc name ((c, r) ∷ h) = Made mc name h

-- The run removed this bucket, contents included.
abbrev pub Removed : String → History → Type 0
Removed name [] = ⊥
Removed name ((force_remove_bucket mc name', ok u) ∷ h) = (name ≡ name') ⊎ Removed name h
Removed name ((c, r) ∷ h) = Removed name h

-- The run was replied that there is no provider of this name.
abbrev pub ProviderGone : String → History → Type 0
ProviderGone provider [] = ⊥
ProviderGone provider ((get_provider k, err e) ∷ h) =
    ((provider ≡ k.name) × (is_not_found e ≡ true)) ⊎ ProviderGone provider h
ProviderGone provider ((c, r) ∷ h) = ProviderGone provider h

-- The run was replied that the bucket is there, or that it is not.
abbrev pub Exists : String → Bool → History → Type 0
Exists name answer [] = ⊥
Exists name answer ((bucket_exists mc name', ok there) ∷ h) =
    ((name ≡ name') × (answer ≡ there)) ⊎ Exists name answer h
Exists name answer ((c, r) ∷ h) = Exists name answer h

-- The run wrote a secret.
abbrev pub SecretSaved : History → Type 0
SecretSaved [] = ⊥
SecretSaved ((create_secret s, ok s') ∷ h) = Unit
SecretSaved ((update_secret s, ok s') ∷ h) = Unit
SecretSaved ((c, r) ∷ h) = SecretSaved h
