-- ===== src/Controllers/Webhook/Account.antt =====
-- controllers/bucketserviceaccount_webhook.go. The request that the context carries is an argument:
-- the user's name, or the error of `admission.RequestFromContext`.
pub mod Admission
use minio_bucket_controller.Base.{
  String, ◌<>◌, ◌==◌, starts_with, contains, Bool, not, ◌||◌, Option, none, some, if◌then◌else◌,
}
use minio_bucket_controller.Errors.{Result, ok, err, wrap, is_not_found}
use minio_bucket_controller.Api.Account.{BucketServiceAccount}
use minio_bucket_controller.Api.Object.{Object, account, secret, object_meta}
use minio_bucket_controller.Libraries.{Libraries}
use minio_bucket_controller.Program.{Program, ask, ◌>>=◌, get_provider, list_users}
use minio_bucket_controller.Controllers.Status.{prefix}
use minio_bucket_controller.Controllers.Provider.{new_client}
use minio_bucket_controller.Controllers.Webhook.{
  Denial, error, bad_object, bad_request, internal, forbidden, missing, conflict, admit, deny,
}

-- `allowed`; the first argument is the reconciler's `ServiceAccount`.
unfoldable pub allowed : String → String → Bool
allowed service_account name =
    name == service_account || starts_with name "system:serviceaccount:kube-system:"

module _ (lib : Libraries) where
  -- The checks on a new account.
  unfoldable pub validate_account : BucketServiceAccount → Program (Option Denial)
  unfolding new_client
  validate_account a =
      if a.spec.provider == "" then deny (bad_request "provider is required") else (do
        found ← ask (get_provider (record { namespace = ""; name = a.spec.provider }))
        elim found [
          | err e ↦
              if is_not_found e
              then deny (missing "bucketproviders" a.spec.provider)
              else deny (error e)
          | ok p ↦ do
            client ← new_client lib p
            elim client [
              | err e ↦ deny (internal (wrap "unable to create minio client" e))
              | ok mc ↦ do
                r ← ask (list_users mc)
                elim r [
                  | err e ↦ deny (internal (wrap "unable to list users" e))
                  | ok us ↦
                      if contains us (prefix <> a.metadata.name)
                      then deny (
                          conflict "bucketserviceaccounts" a.metadata.name "account already exists")
                      else admit
                ]
            ]
        ])

  -- The switch on the type of a new object.
  unfoldable pub validate_new : Object → Program (Option Denial)
  unfolding validate_account
  validate_new (account a) = validate_account a
  validate_new (secret s) = admit
  validate_new o = deny (bad_object "expected a BucketServiceAccount or a Secret" o)

-- The guard that the three handlers share: the object has metadata, the request is there, and its
-- user may act; the two texts differ by handler.
unfoldable pub guarded :
    String
    → String
    → Object
    → Object
    → Result String
    → Program (Option Denial)
    → Program (Option Denial)
unfolding allowed
guarded service_account action o shown request rest = elim (object_meta o) [
  | none ↦ deny (bad_object "expected a BucketServiceAccount" shown)
  | some m ↦ elim request [
    | err e ↦ deny (internal e)
    | ok user ↦
        if not (allowed service_account user)
        then deny (
            forbidden "bucketserviceaccounts" m.name
              ("user " <> (user <> (" is not allowed to " <> action))))
        else rest
  ]
]

-- `ValidateCreate`
unfoldable pub validate_create :
    Libraries → String → Result String → Object → Program (Option Denial)
unfolding guarded
validate_create lib service_account request o =
    guarded service_account "create service account" o o request (validate_new lib o)

-- `ValidateUpdate`
unfoldable pub validate_update : String → Result String → Object → Object → Program (Option Denial)
unfolding guarded
validate_update service_account request o n =
    guarded service_account "update bucket service account" n o request admit

-- `ValidateDelete`
unfoldable pub validate_delete : String → Result String → Object → Program (Option Denial)
unfolding guarded
validate_delete service_account request o =
    guarded service_account "deleta bucket service account" o o request admit
