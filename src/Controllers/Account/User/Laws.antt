-- ===== src/Controllers/Account/User/Laws.antt =====
-- controllers/bucketserviceaccount_controller.go: the user of an account.
use minio_bucket_controller.Base.{
  String, Bool, is_some, if◌then◌else◌, ◌≡◌, contains, true, false, ◌⊎◌, [], ◌∷◌, arith,
}
use minio_bucket_controller.Errors.{ok, err}
use minio_bucket_controller.Api.Account.{BucketServiceAccount}
use minio_bucket_controller.Libraries.{Libraries}
use minio_bucket_controller.Mc.Client.{Client}
use minio_bucket_controller.Program.{Call, list_users, add_user, random_bytes, record_event}
use minio_bucket_controller.Program.Contract.{History, Contract, Meets}
use minio_bucket_controller.Controllers.Status.{Step, name}
use minio_bucket_controller.Controllers.Account.User.{reconcile_user}

-- MinIO replied whether the user is in its list.
abbrev pub Listed : Client → String → Bool → History → Type 0
Listed mc user answer [] = ⊥
Listed mc user answer ((list_users mc', ok users) ∷ h) =
    ((mc ≡ mc') × (contains users user ≡ answer)) ⊎ Listed mc user answer h
Listed mc user answer ((c, r) ∷ h) = Listed mc user answer h

-- MinIO replied that the user was made.
abbrev pub Added : Client → String → History → Type 0
Added mc user [] = ⊥
Added mc user ((add_user mc' user' password, ok u) ∷ h) =
    ((mc ≡ mc') × (user ≡ user')) ⊎ Added mc user h
Added mc user ((c, r) ∷ h) = Added mc user h

-- There was no randomness.
abbrev pub NoRandomness : History → Type 0
NoRandomness [] = ⊥
NoRandomness ((random_bytes n, err e) ∷ h) = Unit
NoRandomness ((c, r) ∷ h) = NoRandomness h

abbrev pub MayCall : Client → String → History → Call → Type 0
MayCall mc user h (list_users mc') = mc ≡ mc'
MayCall mc user h (random_bytes n) = Unit
MayCall mc user h (add_user mc' user' password) =
    (mc ≡ mc') × (user ≡ user') × Listed mc user false h
MayCall mc user h (record_event o type reason message) = Added mc user h
MayCall mc user h c = ⊥

abbrev pub user_contract : Client → BucketServiceAccount → Contract (Step BucketServiceAccount)
user_contract mc a = record {
  may_call = MayCall mc (name a.metadata.name);
  may_return = λ h s.
      if s.done
      then Listed mc (name a.metadata.name) true h ⊎ Added mc (name a.metadata.name) h
      else is_some s.error ≡ true;
  may_halt = λ h. NoRandomness h;
}

-- The step that makes an account's user adds it only after MinIO replied a list without it. It goes
-- on only with the user in that list or added, and where it does not go on it returns an error. It
-- ends the process only where there is no randomness for the password.
pub reconcile_user-once :
    (lib : Libraries) (mc : Client) (a : BucketServiceAccount)
    → Meets (user_contract mc a) [] (reconcile_user lib mc a)
unfolding reconcile_user
reconcile_user-once lib mc a = ground arith
