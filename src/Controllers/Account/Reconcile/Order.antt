-- ===== src/Controllers/Account/Reconcile/Order.antt =====
-- controllers/bucketserviceaccount_controller.go: the order of the effects of a pass over an account.
use minio_bucket_controller.Base.{
  String, ◌<>◌, ◌≡◌, true, false, not, ◌==◌, ◌⊎◌, Option, none, some, List, [], ◌∷◌, Bool, contains,
  if◌then◌else◌,
}
use minio_bucket_controller.Errors.{ok}
use minio_bucket_controller.Api.Meta.{NamespacedName}
use minio_bucket_controller.Api.Account.{BucketServiceAccount, account_condition_ready}
use minio_bucket_controller.Program.{
  Call, get_account, get_secret, list_users, add_user, set_policy, update_account_status,
}
use minio_bucket_controller.Program.Contract.{History, Contract}
use minio_bucket_controller.Controllers.Status.{Step, name, sa_secret_suffix}

-- The account as the server replied it last.
abbrev pub current : History → Option BucketServiceAccount
current [] = none
current ((get_account k, ok a) ∷ h) = some a
current ((update_account_status a, ok a') ∷ h) = some a'
current ((c, r) ∷ h) = current h

abbrev pub IsListed : Option BucketServiceAccount → List String → Type 0
IsListed none users = ⊥
IsListed (some a) users = contains users (name a.metadata.name) ≡ true

abbrev pub IsUser : Option BucketServiceAccount → String → Type 0
IsUser none user = ⊥
IsUser (some a) user = user ≡ name a.metadata.name

abbrev pub IsKeys : Option BucketServiceAccount → NamespacedName → Type 0
IsKeys none k = ⊥
IsKeys (some a) k =
    (k.namespace ≡ a.metadata.namespace) × (k.name ≡ (a.metadata.name <> sa_secret_suffix))

-- MinIO replied that the user of the account is there, or was added.
abbrev pub UserThere : History → Type 0
UserThere [] = ⊥
UserThere ((list_users mc, ok users) ∷ h) = IsListed (current h) users ⊎ UserThere h
UserThere ((add_user mc user password, ok u) ∷ h) = IsUser (current h) user ⊎ UserThere h
UserThere ((c, r) ∷ h) = UserThere h

-- The server replied the secret of the account's keys.
abbrev pub KeysThere : History → Type 0
KeysThere [] = ⊥
KeysThere ((get_secret k, ok s) ∷ h) = IsKeys (current h) k ⊎ KeysThere h
KeysThere ((c, r) ∷ h) = KeysThere h

-- MinIO replied that the user has its policies.
abbrev pub PoliciesSet : History → Type 0
PoliciesSet [] = ⊥
PoliciesSet ((set_policy mc policies user, ok u) ∷ h) = IsUser (current h) user ⊎ PoliciesSet h
PoliciesSet ((c, r) ∷ h) = PoliciesSet h

-- The account has this phase.
abbrev pub HasPhase : Option BucketServiceAccount → String → Type 0
HasPhase none phase = ⊥
HasPhase (some a) phase = phase ≡ a.status.phase

abbrev pub MayCall : History → Call → Type 0
MayCall h (update_account_status a) =
    (if a.status.phase == account_condition_ready
      then HasPhase (current h) a.status.phase ⊎ (UserThere h × KeysThere h × PoliciesSet h)
      else Unit)
MayCall h c = Unit

abbrev pub order : {A : Type 0} → (History → A → Type 0) → Contract A
order P = record { may_call = MayCall; may_return = P; may_halt = λ h. Unit }

abbrev pub Chooses : Bool → Type 0 → Type 0
Chooses true P = P
Chooses false P = Unit

pub take : (P : Type 0) (b : Bool) → not b ≡ false → Chooses b P → P
take P true e p = p
take P false e p = cc

-- Where a step went on.
abbrev pub GoesOn :
    (History → BucketServiceAccount → Type 0) → History → Step BucketServiceAccount → Type 0
GoesOn P h s = Chooses s.done (P h s.object)

abbrev pub Fetched : History → BucketServiceAccount → Type 0
Fetched h a = current h ≡ some a

abbrev pub WithUser : History → BucketServiceAccount → Type 0
WithUser h a = Fetched h a × UserThere h

abbrev pub WithKeys : History → BucketServiceAccount → Type 0
WithKeys h a = Fetched h a × UserThere h × KeysThere h

abbrev pub WithPolicies : History → BucketServiceAccount → Type 0
WithPolicies h a = UserThere h × KeysThere h × PoliciesSet h
