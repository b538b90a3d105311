-- ===== src/Controllers/Account/Reconcile/Release.antt =====
-- controllers/bucketserviceaccount_controller.go: a pass over an account that is being deleted.
use minio_bucket_controller.Base.{not, String, ◌≡◌, ◌==◌, true, ◌⊎◌, [], ◌∷◌, arith, if◌then◌else◌}
use minio_bucket_controller.Errors.{ok, err, error_code}
use minio_bucket_controller.Api.Account.{BucketServiceAccount, account_condition_deleting}
use minio_bucket_controller.Libraries.{Libraries}
use minio_bucket_controller.Program.{Call, remove_user, update_account}
use minio_bucket_controller.Program.Contract.{History, Contract, Meets, Meets-seq, Meets-if}
use minio_bucket_controller.Mc.Client.{Client}
use minio_bucket_controller.Controllers.History.{ProviderGone}
use minio_bucket_controller.Controllers.Status.{Step, name}
use minio_bucket_controller.Controllers.Provider.{new_client}
use minio_bucket_controller.Controllers.Account.Deletion.{
  mark_deleting, delete_from_provider, delete_keys, remove_account, reconcile_deletion,
}
use minio_bucket_controller.Controllers.Account.Reconcile.{reconcile_deleted}

-- MinIO replied that the user was removed, or that there is no such user.
abbrev pub UserGone : String → History → Type 0
UserGone user [] = ⊥
UserGone user ((remove_user mc user', ok u) ∷ h) = (user ≡ user') ⊎ UserGone user h
UserGone user ((remove_user mc user', err e) ∷ h) =
    ((user ≡ user') × ((error_code e == "XMinioAdminNoSuchUser") ≡ true)) ⊎ UserGone user h
UserGone user ((c, r) ∷ h) = UserGone user h

module _ (lib : Libraries) (a : BucketServiceAccount) where
  abbrev IsMarked : Type 0
  IsMarked = lib.is_status_condition_true a.status.conditions account_condition_deleting ≡ true

  abbrev MayCall : History → Call → Type 0
  MayCall h (remove_user mc user) = (user ≡ name a.metadata.name) × IsMarked
  MayCall h (update_account a') =
      IsMarked × (UserGone (name a.metadata.name) h ⊎ ProviderGone a.spec.provider h)
  MayCall h c = Unit

  abbrev pub release : {A : Type 0} → (History → A → Type 0) → Contract A
  release P = record { may_call = MayCall; may_return = P; may_halt = λ h. ⊥ }

  -- How the deletion ends.
  abbrev pub GoneIfDone : History → Step BucketServiceAccount → Type 0
  GoneIfDone h s =
      if s.done
      then IsMarked × (UserGone (name a.metadata.name) h ⊎ ProviderGone a.spec.provider h)
      else Unit

  mark_deleting-GoneIfDone : Meets (release GoneIfDone) [] (mark_deleting lib a)
  unfolding mark_deleting
  mark_deleting-GoneIfDone = ground arith

  remove_account-GoneIfDone :
      (h : History) (mc : Client)
      → IsMarked
      → Meets (release GoneIfDone) h (remove_account lib mc a)
  unfolding remove_account
  remove_account-GoneIfDone h mc marked = ground arith

  delete_keys-GoneIfDone :
      (h : History) (mc : Client) → IsMarked → Meets (release GoneIfDone) h (delete_keys lib mc a)
  unfolding delete_keys
  delete_keys-GoneIfDone h mc marked = grind (arith, remove_account-GoneIfDone)

  delete_from_provider-GoneIfDone :
      IsMarked → Meets (release GoneIfDone) [] (delete_from_provider lib a)
  unfolding delete_from_provider new_client
  delete_from_provider-GoneIfDone marked = (
    tt,
    elim [
      | err e ↦ ground arith
      | ok p ↦
          Meets-seq (release GoneIfDone) (λ h c. Unit) _ (new_client lib p) _ (ground arith)
            λ h'. elim [ err e ↦ λ _. tt | ok mc ↦ λ _. delete_keys-GoneIfDone h' mc marked ]
    ],
  )

  reconcile_deletion-GoneIfDone : Meets (release GoneIfDone) [] (reconcile_deletion lib a)
  unfolding reconcile_deletion
  reconcile_deletion-GoneIfDone =
      Meets-if (release GoneIfDone) []
        (not (lib.is_status_condition_true a.status.conditions account_condition_deleting)) _ _
        (λ _. mark_deleting-GoneIfDone) (λ e. delete_from_provider-GoneIfDone (ground arith))

  -- In a pass over an account that is being deleted, the account's finalizers are written only where
  -- the account was marked as being deleted, and MinIO replied in this pass that its user was
  -- removed or is not there, or the server replied that its provider is not there. No other user is
  -- removed, and none before the mark.
  pub reconcile_deleted-release : Meets (release (λ h r. Unit)) [] (reconcile_deleted lib a)
  unfolding reconcile_deleted
  reconcile_deleted-release =
      Meets-seq (release (λ h r. Unit)) GoneIfDone [] (reconcile_deletion lib a) _
        reconcile_deletion-GoneIfDone (λ h s p. ground arith)
