-- ===== src/Controllers/Bucket/Reconcile/Order.antt =====
-- controllers/bucket_controller.go: the order of the effects of a pass over a bucket.
use minio_bucket_controller.Errors.{ok, err}
use minio_bucket_controller.Program.{
  Call, get_bucket, make_bucket, create_secret, update_secret, update_bucket_status,
}
use minio_bucket_controller.Controllers.Provider.{new_client, default_provider}
use minio_bucket_controller.Base.{
  refl, sym, ◌∙◌, String, ◌≡◌, true, false, ◌==◌, ◌⊎◌, if◌then◌else◌, is_some, inl, inr,
  Option-cases, Option, none, some, [], ◌∷◌, arith,
}
use minio_bucket_controller.Api.Meta.{NamespacedName}
use minio_bucket_controller.Api.Bucket.{Bucket, bucket_condition_ready}
use minio_bucket_controller.Libraries.{Libraries}
use minio_bucket_controller.Libraries.Laws.{EqualityLaws}
use mathlib.Core.Bool.{false≢true}
use minio_bucket_controller.Api.Secret.{Secret}
use minio_bucket_controller.Api.Object.{pointer, secret_value, secret}
use minio_bucket_controller.Mc.Client.{Client}
use minio_bucket_controller.Program.Contract.{History, Contract, Meets, Meets-seq, Meets-if}
use minio_bucket_controller.Controllers.Status.{Step}
use minio_bucket_controller.Controllers.History.{fetched_bucket, Exists, SecretSaved}
use minio_bucket_controller.Controllers.Bucket.Failure.{stopped}
use minio_bucket_controller.Controllers.Bucket.Deletion.{reconcile_deletion}
use minio_bucket_controller.Controllers.Bucket.Resources.{
  reconcile_bucket, reconcile_service_account,
}
use minio_bucket_controller.Controllers.Bucket.Credentials.{
  reconcile_secret, delete_old_secret, find_secret, write_secret, save_secret, save_if_changed,
  Existing,
}
use minio_bucket_controller.Controllers.Bucket.Reconcile.{
  mark_ready, reconcile_deleted, reconcile_resources, reconcile_with_provider, reconcile_spec,
  reconcile_object, reconcile, set_default_provider, mark_creating, failed,
}
use minio_bucket_controller.Controllers.Bucket.Reconcile.Rule.{GoesOn, reconcile_resources-Meets}

-- The bucket is in MinIO, and the status has its endpoint.
abbrev pub Owned : Option Bucket → History → Type 0
Owned none h = ⊥
Owned (some b) h = Exists b.metadata.name true h × (is_some b.status.endpoint ≡ true)

-- The status says what it said, or the bucket is in MinIO and its secret was written.
abbrev pub Announced : Option Bucket → Bucket → History → Type 0
Announced none b h = ⊥
Announced (some b0) b h =
    ((b.status.phase ≡ b0.status.phase) × (b.status.conditions ≡ b0.status.conditions))
    ⊎ (Owned (some b0) h × SecretSaved h)

abbrev pub InOrder : History → Call → Type 0
InOrder h (make_bucket mc name) = Exists name false h
InOrder h (create_secret s) = Owned (fetched_bucket h) h
InOrder h (update_secret s) = Owned (fetched_bucket h) h
InOrder h (update_bucket_status b) =
    (if b.status.phase == bucket_condition_ready then Announced (fetched_bucket h) b h else Unit)
InOrder h c = Unit

abbrev pub order : {A : Type 0} → (History → A → Type 0) → Contract A
order P = record { may_call = InOrder; may_return = P; may_halt = λ h. ⊥ }

-- The bucket is as it was fetched, and its spec names the secret.
abbrev Complete : History → Bucket → Type 0
Complete h b = (fetched_bucket h ≡ some b) × (is_some b.spec.secret_name ≡ true)

abbrev Ready : History → Bucket → Type 0
Ready h b = (b0 : Bucket) × (fetched_bucket h ≡ some b0) × Owned (some b0) h × SecretSaved h

abbrev Placed : History → Bucket → Type 0
Placed h b =
    (fetched_bucket h ≡ some b)
    × (is_some b.spec.secret_name ≡ true)
    × Exists b.metadata.name true h
    × (is_some b.status.endpoint ≡ true)

module _ (lib : Libraries) where
  reconcile_deleted-order :
      (h : History) (b : Bucket) → Meets (order (λ h' s. Unit)) h (reconcile_deleted lib b)
  unfolding reconcile_deleted reconcile_deletion
  reconcile_deleted-order h b = ground arith

  reconcile_account-order :
      (h : History) (b : Bucket)
      → Complete h b
      → Meets (order (GoesOn Complete)) h (reconcile_service_account lib b)
  unfolding reconcile_service_account
  reconcile_account-order h b p = ground arith

  reconcile_bucket-order :
      (h : History) (mc : Client) (b : Bucket)
      → Complete h b
      → Meets (order (GoesOn Placed)) h (reconcile_bucket lib mc b)
  unfolding reconcile_bucket
  reconcile_bucket-order h mc b p = ground arith

  mark_ready-order :
      (h : History) (b : Bucket) → Ready h b → Meets (order (λ h' s. Unit)) h (mark_ready lib b)
  unfolding mark_ready
  mark_ready-order h b p = ground arith

  stopped-order :
      (h : History) (s : Step Bucket) (reason : String)
      → Meets (order (λ h' s. Unit)) h (stopped lib s reason)
  unfolding stopped
  stopped-order h s reason = ground arith

  reconcile_spec_nameless :
      (h : History) (b : Bucket)
      → b.spec.secret_name ≡ none
      → Meets (order (λ h' s. Unit)) h (reconcile_spec lib b)
  unfolding reconcile_spec set_default_provider default_provider failed
  reconcile_spec_nameless h b nameless = ground arith

  reconcile_spec_named :
      (h : History) (b : Bucket) (n : String)
      → b.spec.secret_name ≡ some n
      → Meets (order (λ h' s. Unit)) h (reconcile_with_provider lib b)
      → Meets (order (λ h' s. Unit)) h (reconcile_spec lib b)
  unfolding reconcile_spec set_default_provider default_provider failed mark_creating
  reconcile_spec_named h b n named next = ground arith

  reconcile_object_of :
      (h : History) (b : Bucket)
      → Meets (order (λ h' s. Unit)) h (reconcile_spec lib b)
      → Meets (order (λ h' s. Unit)) h (reconcile_object lib b)
  unfolding reconcile_object
  reconcile_object_of h b next = ground (arith, reconcile_deleted-order h b)

  save_secret-order :
      (h : History) (mc : Client) (b : Bucket) (found : Existing) (s : Secret)
      → Placed h b
      → Meets (order (GoesOn Ready)) h (save_secret lib mc b found s)
  unfolding save_secret
  save_secret-order h mc b found s p = ground arith

  write_secret_of :
      (h : History) (mc : Client) (b : Bucket) (found : Existing)
      → Placed h b
      → ((h : History) (s : Secret)
          → Placed h b
          → Meets (order (GoesOn Ready)) h (save_if_changed lib mc b found s))
      → Meets (order (GoesOn Ready)) h (write_secret lib mc b found)
  unfolding write_secret
  write_secret_of h mc b found p save = grind (arith, save)

  reconcile_secret_of :
      (h : History) (mc : Client) (b : Bucket)
      → Placed h b
      → ((h : History) (found : Existing)
          → Placed h b
          → Meets (order (GoesOn Ready)) h (write_secret lib mc b found))
      → Meets (order (GoesOn Ready)) h (reconcile_secret lib mc b)
  unfolding reconcile_secret delete_old_secret find_secret
  reconcile_secret_of h mc b p write = grind (arith, write)

module _ (lib : Libraries) (laws : EqualityLaws lib) where
  save_if_changed-order :
      (h : History) (mc : Client) (b : Bucket) (found : Existing) (s : Secret)
      → Placed h b
      → Meets (order (GoesOn Ready)) h (save_if_changed lib mc b found s)
  unfolding save_if_changed
  save_if_changed-order h mc b found s p =
      Meets-if (order (GoesOn Ready)) h
        (lib.deep_equal (secret_value found.old) (pointer (secret s))) _ _
        (λ e. absurd (false≢true (sym (laws.deep_equal-value-pointer found.old (secret s)) ∙ e)))
        (λ _. save_secret-order lib h mc b found s p)

  reconcile_secret-order :
      (h : History) (mc : Client) (b : Bucket)
      → Placed h b
      → Meets (order (GoesOn Ready)) h (reconcile_secret lib mc b)
  reconcile_secret-order h mc b p = reconcile_secret_of lib h mc b p λ h' found p'.
      write_secret_of lib h' mc b found p' λ h'' s p''. save_if_changed-order h'' mc b found s p''

  reconcile_resources-order :
      (h : History) (mc : Client) (b : Bucket)
      → Complete h b
      → Meets (order (λ h' s. Unit)) h (reconcile_resources lib mc b)
  reconcile_resources-order h mc b p =
      reconcile_resources-Meets lib (order (λ h' s. Unit)) Complete Placed Ready h mc b
        (reconcile_account-order lib h b p) (λ h b p. reconcile_bucket-order lib h mc b p)
        (λ h b p. reconcile_secret-order h mc b p) (mark_ready-order lib) (stopped-order lib)

  reconcile_with_provider-order :
      (h : History) (b : Bucket)
      → Complete h b
      → Meets (order (λ h' s. Unit)) h (reconcile_with_provider lib b)
  unfolding reconcile_with_provider failed new_client
  reconcile_with_provider-order h b p = (
    tt,
    elim [
      | err e ↦ ground arith
      | ok provider ↦
          Meets-seq (order (λ h' s. Unit)) (λ h' c. Complete h' b) _ (new_client lib provider) _
            (ground arith)
            λ h'. elim [
              | err e ↦ λ _. ground arith
              | ok mc ↦ λ p'. reconcile_resources-order h' mc b p'
            ]
    ],
  )

  reconcile_spec-order :
      (h : History) (b : Bucket)
      → fetched_bucket h ≡ some b
      → Meets (order (λ h' s. Unit)) h (reconcile_spec lib b)
  reconcile_spec-order h b f = elim (Option-cases b.spec.secret_name) [
    | inl nameless ↦ reconcile_spec_nameless lib h b nameless
    | inr (n, named) ↦
        reconcile_spec_named lib h b n named (reconcile_with_provider-order h b (f, rw named refl))
  ]

  -- Where `DeepEqual` never takes a secret by value and a pointer for equal, as is documented: a
  -- pass over a bucket makes a bucket in MinIO only after MinIO replied that it is not there. It
  -- writes a secret only where MinIO replied that the fetched bucket is there and the fetched status
  -- has an endpoint. It writes the phase `Ready` only with the phase and the conditions that were
  -- fetched, or after all of that with a secret written in the pass. It never panics or ends the
  -- process.
  pub reconcile-order : (key : NamespacedName) → Meets (order (λ h' s. Unit)) [] (reconcile lib key)
  unfolding reconcile
  reconcile-order key = (
    tt,
    elim [
      | err e ↦ ground arith
      | ok b ↦
          let h : History = (get_bucket key, ok b) ∷ [] in
          reconcile_object_of lib h b (reconcile_spec-order h b refl)
    ],
  )
