-- ===== src/Controllers/Provider/Connects.antt =====
-- controllers/bucketprovider_controller.go: `newClient` where the provider's secrets are there.
use minio_bucket_controller.Base.{String, ◌≡◌, refl, true, not, some, arith}
use minio_bucket_controller.Base.Dict.{has_key}
use minio_bucket_controller.Errors.{Result, ok, err}
use minio_bucket_controller.Api.Meta.{NamespacedName}
use minio_bucket_controller.Api.Provider.{BucketProvider, SecretRef}
use minio_bucket_controller.Api.Secret.{Secret}
use minio_bucket_controller.Libraries.{Libraries}
use minio_bucket_controller.Mc.Client.{Client}
use minio_bucket_controller.Mc.Connect.{new_mc}
use minio_bucket_controller.Program.{Call, Reply, get_secret}
use minio_bucket_controller.Program.Contract.{History, Contract, Meets, Meets-seq}
use minio_bucket_controller.Program.Relies.{is_ok, AllHelpful, relies}
use minio_bucket_controller.Controllers.SecretRef.{fetch_secret_ref}
use minio_bucket_controller.Controllers.Provider.{new_client}

abbrev pub place : SecretRef → NamespacedName
place ref = record { namespace = ref.namespace; name = ref.name }

-- The secret that the reference names is there, with the key.
abbrev pub HasRef : SecretRef → NamespacedName → Result Secret → Type 0
HasRef ref k (ok s) = k ≡ place ref → has_key ref.key s.contents ≡ true
HasRef ref k (err e) = ¬ (k ≡ place ref)

-- So are both of a provider's secrets.
abbrev pub HasKeys : BucketProvider → NamespacedName → Result Secret → Type 0
HasKeys p k r = HasRef p.spec.access_key k r × HasRef p.spec.secret_key k r

-- Clients can be made for the endpoint of the provider.
abbrev pub HasClients : Libraries → BucketProvider → Type 0
HasClients lib p =
    (access secret : String)
    → is_ok (
        new_mc lib (record {
          endpoint = p.spec.endpoint;
          access_key = access;
          secret_key = secret;
          secure = not p.spec.insecure;
        }))
      ≡ true

module _ (Helpful : (c : Call) → Reply c → Type 0) where
  abbrev pub Answers : {A : Type 0} → History → Result A → Type 0
  Answers h r = AllHelpful Helpful h → is_ok r ≡ true

  fetch_secret_ref-relies :
      (lib : Libraries) (ref : SecretRef) (h : History)
      → ((k : NamespacedName) (r : Result Secret) → Helpful (get_secret k) r → HasRef ref k r)
      → Meets (relies Helpful (λ h r. is_ok r ≡ true)) h (fetch_secret_ref lib (some ref))
  unfolding fetch_secret_ref
  fetch_secret_ref-relies lib ref h reads = (
    tt,
    elim [
      | err e ↦ λ helpful. absurd (reads _ _ helpful.0 refl)
      | ok s ↦
          let found : Helpful (get_secret (place ref)) (ok s) → has_key ref.key s.contents ≡ true =
            λ helps. reads (place ref) (ok s) helps refl in
          ground (arith, found)
    ],
  )

  abbrev pub connects : Contract (Result Client)
  connects = relies Helpful (λ h c. is_ok c ≡ true)

  pub new_client-relies :
      (lib : Libraries) (p : BucketProvider) (h : History)
      → HasClients lib p
      → ((k : NamespacedName) (r : Result Secret) → Helpful (get_secret k) r → HasKeys p k r)
      → Meets connects h (new_client lib p)
  unfolding new_client
  new_client-relies lib p h clients reads =
      Meets-seq connects Answers h (fetch_secret_ref lib (some p.spec.access_key)) _
        (fetch_secret_ref-relies lib p.spec.access_key h λ k r q. (reads k r q).0)
        λ h1. elim [
          | err e ↦ λ q. q
          | ok access ↦ λ q.
              Meets-seq connects Answers h1 (fetch_secret_ref lib (some p.spec.secret_key)) _
                (fetch_secret_ref-relies lib p.spec.secret_key h1 λ k r q. (reads k r q).1)
                λ h2. elim [ err e ↦ λ q. q | ok password ↦ λ q helpful. clients access password ]
        ]
