-- ===== src/Controllers/Webhook/Account/Admission.antt =====
-- controllers/bucketserviceaccount_webhook.go: who may act, and on what.
use minio_bucket_controller.Base.{
  String, ◌<>◌, ◌≡◌, ◌↔◌, is_some, contains, true, false, ◌⊎◌, [], ◌∷◌, Option, none, some, arith,
}
use minio_bucket_controller.Errors.{Result, ok, err}
use minio_bucket_controller.Api.Account.{BucketServiceAccount}
use minio_bucket_controller.Api.Object.{Object, account, object_meta}
use minio_bucket_controller.Libraries.{Libraries}
use minio_bucket_controller.Program.{Call, get_provider, get_secret, list_users}
use minio_bucket_controller.Program.Contract.{History, Contract, Meets}
use minio_bucket_controller.Controllers.Status.{prefix}
use minio_bucket_controller.Controllers.Webhook.{Denial}
use minio_bucket_controller.Controllers.Webhook.Account.{
  allowed, validate_account, validate_new, validate_create, validate_update, validate_delete,
}

-- The request is there, and its user may act.
abbrev pub IsAuthorised : String → Result String → Type 0
IsAuthorised service_account (err e) = ⊥
IsAuthorised service_account (ok user) = allowed service_account user ≡ true

-- MinIO replied a list of users without this one.
abbrev pub UserFree : String → History → Type 0
UserFree user [] = ⊥
UserFree user ((list_users mc, ok users) ∷ h) = (contains users user ≡ false) ⊎ UserFree user h
UserFree user ((c, r) ∷ h) = UserFree user h

abbrev pub IsRead : Call → Type 0
IsRead (get_provider k) = Unit
IsRead (get_secret k) = Unit
IsRead (list_users mc) = Unit
IsRead c = ⊥

-- The contract of a request: calls, and the admission, need an authorised user.
abbrev pub guarded_contract : String → Result String → (History → Type 0) → Contract (Option Denial)
guarded_contract service_account request P = record {
  may_call = λ h c. IsAuthorised service_account request × IsRead c;
  may_return =
      λ h denied. elim denied [ none ↦ IsAuthorised service_account request × P h | some d ↦ Unit ];
  may_halt = λ h. ⊥;
}

validate_account-guarded :
    (lib : Libraries) (service_account : String) (request : Result String)
    (a : BucketServiceAccount)
    → IsAuthorised service_account request
    → Meets
        (guarded_contract service_account request (UserFree (prefix <> a.metadata.name)))
        []
        (validate_account lib a)
unfolding validate_account
validate_account-guarded lib service_account request a authorised = ground arith

-- A service account is made only by an authorised user, and only if MinIO replied a list of users
-- in which its user is missing. For another user the webhook asks nothing.
pub validate_create-guarded :
    (lib : Libraries) (service_account : String) (request : Result String)
    (a : BucketServiceAccount)
    → Meets
        (guarded_contract service_account request (UserFree (prefix <> a.metadata.name)))
        []
        (validate_create lib service_account request (account a))
unfolding validate_create validate_new
validate_create-guarded lib service_account (err e) a = tt
validate_create-guarded lib service_account (ok user) a =
    ground (arith, validate_account-guarded lib service_account (ok user) a)

-- The webhook asks nobody, and admits just where this holds.
abbrev pub decides : Type 0 → Contract (Option Denial)
decides P = record {
  may_call = λ h c. ⊥;
  may_return = λ h denied. (denied ≡ none) ↔ P;
  may_halt = λ h. ⊥;
}

-- An update is admitted if and only if the new object has metadata and the user is authorised, and a
-- deletion if and only if the object has metadata and the user is authorised. For neither does the
-- webhook make any call.
pub validate_change-decides :
    (service_account : String) (request : Result String) (o n : Object)
    → Meets
        (decides ((is_some (object_meta n) ≡ true) × IsAuthorised service_account request))
        []
        (validate_update service_account request o n)
      × Meets
          (decides ((is_some (object_meta o) ≡ true) × IsAuthorised service_account request))
          []
          (validate_delete service_account request o)
unfolding validate_update validate_delete
validate_change-decides service_account request o n = ground arith
