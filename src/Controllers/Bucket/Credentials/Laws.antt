-- ===== src/Controllers/Bucket/Credentials/Laws.antt =====
-- controllers/bucket_controller.go: what `reconcileSecret` writes, and when it goes on.
use minio_bucket_controller.Base.{
  String, ◌<>◌, ◌≡◌, refl, Bool, true, false, ◌⊎◌, inl, inr, [], ◌∷◌, some, arith, if◌then◌else◌,
}
use mathlib.Core.Path.{subst}
use minio_bucket_controller.Errors.{Error, Result, ok, err, is_not_found}
use minio_bucket_controller.Api.Meta.{NamespacedName, named}
use minio_bucket_controller.Api.Bucket.{Bucket, bucket_access_secret_type}
use minio_bucket_controller.Api.Secret.{Secret}
use minio_bucket_controller.Api.Object.{bucket, secret}
use minio_bucket_controller.Libraries.{Libraries}
use minio_bucket_controller.Libraries.Laws.{EqualityLaws}
use minio_bucket_controller.Mc.Client.{Client}
use minio_bucket_controller.Program.{Call, get_secret, create_secret, update_secret}
use minio_bucket_controller.Program.Contract.{History, Contract, Meets, Meets-seq, Meets-if}
use minio_bucket_controller.Controllers.History.{SecretSaved}
use minio_bucket_controller.Controllers.Status.{Step, sa_secret_suffix}
use minio_bucket_controller.Controllers.Bucket.Credentials.{
  Existing, access_of, access_entries, apply_templates, delete_old_secret, find_secret, save_secret,
  save_if_changed, write_secret, reconcile_secret,
}

-- The server replied this secret under this place.
abbrev pub Replied : NamespacedName → Secret → History → Type 0
Replied place s [] = ⊥
Replied place s ((get_secret k, ok s') ∷ h) = ((k ≡ place) × (s' ≡ s)) ⊎ Replied place s h
Replied place s ((c, r) ∷ h) = Replied place s h

-- The server replied that there is no secret under this place.
abbrev pub Missing : NamespacedName → History → Type 0
Missing place [] = ⊥
Missing place ((get_secret k, err e) ∷ h) =
    ((k ≡ place) × (is_not_found e ≡ true)) ⊎ Missing place h
Missing place ((c, r) ∷ h) = Missing place h

abbrev pub keys_place : Bucket → NamespacedName
keys_place b = record {
  namespace = b.metadata.namespace;
  name = b.spec.service_account <> sa_secret_suffix;
}

-- The secret that was there under the bucket's secret name, or a new one where none was.
abbrev pub Found : Bucket → String → Existing → History → Type 0
Found b wanted found h =
    let place : NamespacedName = record { namespace = b.metadata.namespace; name = wanted } in
    if found.update
    then Replied place found.old h
    else (found.old.metadata ≡ named wanted b.metadata.namespace) × Missing place h

Result-cases : {A : Type 0} (r : Result A) → ((a : A) × (r ≡ ok a)) ⊎ ((e : Error) × (r ≡ err e))
Result-cases (ok a) = inl (a, refl)
Result-cases (err e) = inr (e, refl)

module _ (lib : Libraries) (mc : Client) (b : Bucket) (wanted : String) where
  -- The secret has the entries of the access that the keys secret of the bucket's account gives,
  -- with the templates; it is the one that was found, with the bucket as its controller.
  abbrev pub IsBuilt : Existing → Secret → Secret → Type 0
  IsBuilt found sa s =
      (s.type ≡ bucket_access_secret_type)
      × (apply_templates lib (access_of mc b sa) b.spec.secret_template
            (access_entries (access_of mc b sa))
          ≡ ok s.contents)
      × (lib.set_controller_reference (bucket b)
            (record found.old.metadata { labels = b.metadata.labels })
          ≡ ok s.metadata)

  abbrev pub Built : Bool → Secret → History → Type 0
  Built update s h =
      (found : Existing) × (sa : Secret) × (found.update ≡ update)
      × Found b wanted found h
      × Replied (keys_place b) sa h
      × IsBuilt found sa s

  abbrev pub MaySave : History → Call → Type 0
  MaySave h (create_secret s) = Built false s h
  MaySave h (update_secret s) = Built true s h
  MaySave h c = Unit

  abbrev pub saving : {A : Type 0} → (History → A → Type 0) → Contract A
  saving P = record { may_call = MaySave; may_return = P; may_halt = λ h. ⊥ }

  -- Where the step goes on, a secret was written.
  abbrev pub SavedIfDone : History → Step Bucket → Type 0
  SavedIfDone h s = if s.done then SecretSaved h else Unit

  save_secret-saves :
      (h : History) (found : Existing) (s : Secret)
      → Built found.update s h
      → Meets (saving SavedIfDone) h (save_secret lib mc b found s)
  unfolding save_secret
  save_secret-saves h found s built =
      Meets-if (saving SavedIfDone) h found.update _ _
        (λ there. (subst (λ u. Built u s h) there built, ground arith))
        (λ new. (subst (λ u. Built u s h) new built, ground arith))

  save_if_changed-saves :
      (laws : EqualityLaws lib) (h : History) (found : Existing) (s : Secret)
      → Built found.update s h
      → Meets (saving SavedIfDone) h (save_if_changed lib mc b found s)
  unfolding save_if_changed
  save_if_changed-saves laws h found s built =
      rw (laws.deep_equal-value-pointer found.old (secret s)) (save_secret-saves h found s built)

  Found-cons :
      (found : Existing) (k : NamespacedName) (s : Secret) (h : History)
      → Found b wanted found h
      → Found b wanted found ((get_secret k, ok s) ∷ h)
  Found-cons found k s h p = ground arith

  write_secret-saves :
      (laws : EqualityLaws lib) (h : History) (found : Existing)
      → Found b wanted found h
      → Meets (saving SavedIfDone) h (write_secret lib mc b found)
  unfolding write_secret
  write_secret-saves laws h found p = (
    tt,
    elim [
      | err e ↦ tt
      | ok sa ↦
          let access = access_of mc b sa in
          let labelled = record found.old.metadata { labels = b.metadata.labels } in
          elim (Result-cases
            (apply_templates lib access b.spec.secret_template (access_entries access))) [
              | inr (e, failed) ↦ rw failed tt
              | inl (entries, applied) ↦
                  elim (Result-cases (lib.set_controller_reference (bucket b) labelled)) [
                    | inr (e, failed) ↦ rw (applied, failed) (ground arith)
                    | inl (owned, adopted) ↦
                        rw (applied, adopted)
                          (save_if_changed-saves laws _ found _ (
                            found,
                            sa,
                            refl,
                            Found-cons found _ sa h p,
                            inl (refl, refl),
                            (refl, applied, adopted),
                          ))
                  ]
            ]
    ],
  )

  abbrev FoundIfOk : History → Result Existing → Type 0
  FoundIfOk h (err e) = Unit
  FoundIfOk h (ok found) = Found b wanted found h

  find_secret-saves : (h : History) → Meets (saving FoundIfOk) h (find_secret lib b wanted)
  unfolding find_secret
  find_secret-saves h = ground arith

  delete_old_secret-saves :
      (h : History) → Meets (saving (λ h r. Unit)) h (delete_old_secret lib b wanted)
  unfolding delete_old_secret
  delete_old_secret-saves h = ground arith

  -- Where the spec names the bucket's secret, and `DeepEqual` never takes a secret by value and a
  -- pointer for equal, as is documented: whatever is replied, the step writes a secret only with the
  -- entries that the templates make of the keys that the server replied for the bucket's account,
  -- with the type of bucket secrets, and with the bucket as controller. It updates only a secret that
  -- the server replied under the name in the spec, and creates one, made from that name and the
  -- bucket's namespace, only where the server replied that there is none. It goes on only after such
  -- a write succeeded, even where the secret has not changed.
  pub reconcile_secret-saves :
      (laws : EqualityLaws lib)
      → b.spec.secret_name ≡ some wanted
      → Meets (saving SavedIfDone) [] (reconcile_secret lib mc b)
  unfolding reconcile_secret
  reconcile_secret-saves laws named =
      simp (reconcile_secret, named)
        (Meets-seq (saving SavedIfDone) (λ h r. Unit) [] (delete_old_secret lib b wanted) _
          (delete_old_secret-saves [])
          λ h1. elim [
            | err e ↦ λ _. tt
            | ok u ↦ λ _.
                Meets-seq (saving SavedIfDone) FoundIfOk h1 (find_secret lib b wanted) _
                  (find_secret-saves h1)
                  λ h2. elim [
                    | err e ↦ λ _. tt
                    | ok found ↦ λ p. write_secret-saves laws h2 found p
                  ]
          ])
