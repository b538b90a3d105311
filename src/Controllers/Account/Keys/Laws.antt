-- ===== src/Controllers/Account/Keys/Laws.antt =====
-- controllers/bucketserviceaccount_controller.go: the keys of an account, old and new.
use minio_bucket_controller.Base.{
  String, ◌<>◌, ◌≡◌, refl, true, ◌⊎◌, inl, inr, List, [], ◌∷◌, Option, none, some, All, arith,
  is_some, if◌then◌else◌,
}
use minio_bucket_controller.Base.Dict.{Dict}
use minio_bucket_controller.Errors.{Result, ok, err}
use minio_bucket_controller.Api.Meta.{NamespacedName}
use minio_bucket_controller.Api.Account.{BucketServiceAccount}
use minio_bucket_controller.Api.Bucket.{minio_access_key, minio_secret_key}
use minio_bucket_controller.Libraries.{Libraries}
use minio_bucket_controller.Mc.Client.{Client}
use minio_bucket_controller.Program.{
  Call, Reply, get_secret, list_service_accounts, delete_service_account, add_service_account,
  create_secret, update_account_status, Credentials,
}
use minio_bucket_controller.Program.Contract.{History, Contract, Meets, Meets-seq, Meets-mono}
use minio_bucket_controller.Controllers.Status.{Step, name, sa_secret_suffix}
use minio_bucket_controller.Controllers.Account.Keys.{
  delete_accounts, save_keys, add_keys, create_keys, reconcile_service_account,
}

-- MinIO replied that this service account was deleted.
abbrev pub Deleted : String → History → Type 0
Deleted v [] = ⊥
Deleted v ((delete_service_account mc v', ok u) ∷ h) = (v ≡ v') ⊎ Deleted v h
Deleted v ((c, r) ∷ h) = Deleted v h

-- The last list of service accounts that MinIO replied.
abbrev pub listed : History → Option (List String)
listed [] = none
listed ((list_service_accounts mc user, ok vs) ∷ h) = some vs
listed ((c, r) ∷ h) = listed h

-- Each service account of that list was deleted.
abbrev pub Cleared : History → Type 0
Cleared h = elim (listed h) [ none ↦ ⊥ | some vs ↦ All (λ v. Deleted v h) vs ]

-- The entries of a secret that holds the last keys that MinIO made.
abbrev pub made_entries : History → Option (Dict String)
made_entries [] = none
made_entries ((add_service_account mc user, ok creds) ∷ h) =
    some ((minio_access_key, creds.access_key) ∷ (minio_secret_key, creds.secret_key) ∷ [])
made_entries ((c, r) ∷ h) = made_entries h

-- The place of the secret of an account's keys.
abbrev pub keys_place : BucketServiceAccount → NamespacedName
keys_place a = record {
  namespace = a.metadata.namespace;
  name = a.metadata.name <> sa_secret_suffix;
}

-- The server replied the secret of the account's keys.
abbrev pub SecretFound : BucketServiceAccount → History → Type 0
SecretFound a [] = ⊥
SecretFound a ((get_secret k, ok s) ∷ h) = (k ≡ keys_place a) ⊎ SecretFound a h
SecretFound a ((c, r) ∷ h) = SecretFound a h

-- The server wrote the account's status, with a secret's name.
abbrev pub Recorded : BucketServiceAccount → History → Type 0
Recorded a [] = ⊥
Recorded a ((update_account_status a', ok a'') ∷ h) =
    ((a'.metadata ≡ a.metadata) × (is_some a'.status.secret_name ≡ true)) ⊎ Recorded a h
Recorded a ((c, r) ∷ h) = Recorded a h

abbrev pub MayCall : Client → String → History → Call → Type 0
MayCall mc user h (list_service_accounts mc' user') = (mc ≡ mc') × (user ≡ user')
MayCall mc user h (delete_service_account mc' v) = mc ≡ mc'
MayCall mc user h (add_service_account mc' user') = (mc ≡ mc') × (user ≡ user') × Cleared h
MayCall mc user h (create_secret s) = made_entries h ≡ some s.contents
MayCall mc user h c = Unit

abbrev pub keys : {A : Type 0} → Client → String → (History → A → Type 0) → Contract A
keys mc user P = record { may_call = MayCall mc user; may_return = P; may_halt = λ h. ⊥ }

-- How the step ends.
abbrev pub Ended : BucketServiceAccount → History → Step BucketServiceAccount → Type 0
Ended a h s = if s.done then SecretFound a h else (is_some s.error ≡ true) ⊎ Recorded a h

abbrev IsStable : (History → Type 0) → Type 0
IsStable I =
    (mc : Client) (v : String) (r : Reply (delete_service_account mc v)) (h : History)
    → I h
    → I ((delete_service_account mc v, r) ∷ h)

abbrev AfterDeletes : (History → Type 0) → List String → History → Result (Unit {0}) → Type 0
AfterDeletes I vs h (err e) = Unit
AfterDeletes I vs h (ok u) = I h × All (λ v. Deleted v h) vs

Deleted-cons :
    (w : String) (mc : Client) (v : String) (r : Reply (delete_service_account mc v)) (h : History)
    → Deleted w h
    → Deleted w ((delete_service_account mc v, r) ∷ h)
Deleted-cons w mc v (ok u) h p = inr p
Deleted-cons w mc v (err e) h p = p

listed-Cleared :
    (vs : List String) (h : History) → listed h ≡ some vs → All (λ v. Deleted v h) vs → Cleared h
listed-Cleared vs h e p = rw (Cleared, e) p

AfterDeletes-cons :
    (I : History → Type 0) (v : String) (vs : List String) (h : History) (r : Result (Unit {0}))
    → AfterDeletes (λ h. I h × Deleted v h) vs h r
    → AfterDeletes I (v ∷ vs) h r
AfterDeletes-cons I v vs h (err e) p = tt
AfterDeletes-cons I v vs h (ok u) p = (p.0.0, (p.0.1, p.1))

module _ (mc : Client) (user : String) where
  delete_accounts-Meets :
      (I : History → Type 0)
      → IsStable I
      → (vs : List String) (h : History) → I h
      → Meets (keys mc user (AfterDeletes I vs)) h (delete_accounts mc vs)
  unfolding delete_accounts
  delete_accounts-Meets I stable [] h i = (i, tt)
  delete_accounts-Meets I stable (v ∷ vs) h i = (
    refl,
    elim [
      | err e ↦ tt
      | ok u ↦
          let h' : History = (delete_service_account mc v, ok u) ∷ h in
          Meets-mono (keys mc user (AfterDeletes J vs)) (keys mc user (AfterDeletes I (v ∷ vs))) h'
            (delete_accounts mc vs) (λ h c p. p) (λ h r. AfterDeletes-cons I v vs h r) (λ h p. p)
            (delete_accounts-Meets J J-stable vs h' (stable mc v (ok u) h i, inl refl))
    ],
  )
    where
      J : History → Type 0
      J h = I h × Deleted v h

      J-stable : IsStable J
      J-stable mc' w r h j = (stable mc' w r h j.0, Deleted-cons v mc' w r h j.1)

module _ (lib : Libraries) (mc : Client) (a : BucketServiceAccount) where
  save_keys-Meets :
      (h : History) (creds : Credentials)
      → made_entries h
        ≡ some ((minio_access_key, creds.access_key) ∷ (minio_secret_key, creds.secret_key) ∷ [])
      → Meets (keys mc (name a.metadata.name) (Ended a)) h (save_keys lib mc a creds)
  unfolding save_keys
  save_keys-Meets h creds made = ground arith

  add_keys-Meets :
      (h : History) (vs : List String) (r : Result (Unit {0}))
      → AfterDeletes (λ h. listed h ≡ some vs) vs h r
      → Meets (keys mc (name a.metadata.name) (Ended a)) h (add_keys lib mc a r)
  unfolding add_keys
  add_keys-Meets h vs (err e) p = inl refl
  add_keys-Meets h vs (ok u) p = (
    (refl, refl, listed-Cleared vs h p.0 p.1),
    elim [ err e ↦ inl refl | ok creds ↦ save_keys-Meets _ creds refl ],
  )

  create_keys-Meets :
      (h : History) → Meets (keys mc (name a.metadata.name) (Ended a)) h (create_keys lib mc a)
  unfolding create_keys
  create_keys-Meets h = (
    (refl, refl),
    elim [
      | err e ↦ inl refl
      | ok vs ↦
          Meets-seq (keys mc (name a.metadata.name) (Ended a))
            (AfterDeletes (λ h. listed h ≡ some vs) vs) _ (delete_accounts mc vs) _
            (delete_accounts-Meets mc (name a.metadata.name) (λ h. listed h ≡ some vs)
              (λ mc v r h i. i) vs _ refl)
            (λ h' r p. add_keys-Meets h' vs r p)
    ],
  )

  -- The step that makes an account's keys asks MinIO for new ones only after MinIO replied the list
  -- of the user's service accounts and that each of them was deleted, and a secret that it creates
  -- has just the keys that MinIO replied. The step goes on only where the server replied the secret
  -- in the account's namespace with the account's name and the suffix `-sa`, and it ends without an
  -- error only there or after the status of this account was written with a secret's name.
  pub reconcile_service_account-keys :
      Meets (keys mc (name a.metadata.name) (Ended a)) [] (reconcile_service_account lib mc a)
  unfolding reconcile_service_account
  reconcile_service_account-keys = grind (arith, create_keys-Meets)
