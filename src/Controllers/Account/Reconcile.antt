-- ===== src/Controllers/Account/Reconcile.antt =====
-- controllers/bucketserviceaccount_controller.go: `Reconcile`
pub mod Release
pub mod Order
pub mod KeysOrder
pub mod PoliciesOrder
pub mod PassOrder
pub mod Helpful
pub mod Steps
pub mod Progress
use minio_bucket_controller.Base.{String, ◌<>◌, not, ◌&&◌, List, is_empty, some, if◌then◌else◌}
use minio_bucket_controller.Errors.{Error, ok, err, new, wrap, is_not_found, ignore_not_found}
use minio_bucket_controller.Api.Meta.{NamespacedName, status_true, is_zero}
use minio_bucket_controller.Api.Account.{
  BucketServiceAccount, account_condition_creating, account_condition_ready,
  account_condition_error, account_condition_deletion_pending, reason_err_create_user,
  reason_err_create_account, reason_err_create_policy,
}
use minio_bucket_controller.Api.Provider.{err_provider_invalid}
use minio_bucket_controller.Libraries.{Libraries}
use minio_bucket_controller.Mc.Client.{Client}
use minio_bucket_controller.Program.{
  Program, ret, ask, ◌>>=◌, get_account, get_provider, update_account, update_account_status,
}
use minio_bucket_controller.Controllers.Status.{
  finalizer, Reconciled, finished, returned, condition, set_condition,
}
use minio_bucket_controller.Controllers.Provider.{new_client}
use minio_bucket_controller.Controllers.Account.Failure.{
  with_conditions, with_status, handle_error, stopped,
}
use minio_bucket_controller.Controllers.Account.User.{reconcile_user}
use minio_bucket_controller.Controllers.Account.Keys.{reconcile_service_account}
use minio_bucket_controller.Controllers.Account.Policies.{reconcile_policies}
use minio_bucket_controller.Controllers.Account.Deletion.{reconcile_deletion}

abbrev pub with_finalizers : BucketServiceAccount → List String → BucketServiceAccount
with_finalizers a fs = record a { metadata = record a.metadata { finalizers = fs } }

module _ (lib : Libraries) where
  open lib use {is_status_condition_true, remove_status_condition}

  -- An account with a deletion time: the finalizer goes once the deletion went on.
  unfoldable pub reconcile_deleted : BucketServiceAccount → Program Reconciled
  reconcile_deleted a = do
    s ← reconcile_deletion lib a
    if not s.done then ret (record { requeue_after = s.requeue_after; error = s.error }) else (do
      let kept = lib.remove_finalizer s.object.metadata.finalizers finalizer
      r ← ask (update_account (with_finalizers s.object kept))
      elim r [ err e ↦ returned (ignore_not_found e) | ok a' ↦ finished ])

  -- The account is marked as ready, unless it is, or waits for its deletion.
  unfoldable pub mark_ready : BucketServiceAccount → Program Reconciled
  mark_ready a =
      if not (is_status_condition_true a.status.conditions account_condition_ready)
        && not (is_status_condition_true a.status.conditions account_condition_deletion_pending)
      then (do
        let cleared =
            remove_status_condition
              (remove_status_condition a.status.conditions account_condition_creating)
              account_condition_error
        cs ← set_condition lib cleared (
            condition account_condition_ready status_true account_condition_ready
              "BucketServiceAccount is ready" a.metadata.generation)
        r ← ask (update_account_status (with_status a cs account_condition_ready))
        elim r [ err e ↦ returned (some e) | ok a' ↦ finished ])
      else finished

  -- The user, its keys and its policies, one after the other.
  unfoldable pub reconcile_resources : Client → BucketServiceAccount → Program Reconciled
  reconcile_resources mc a = do
    s1 ← reconcile_user lib mc a
    if not s1.done then stopped lib s1 reason_err_create_user else (do
      s2 ← reconcile_service_account lib mc s1.object
      if not s2.done then stopped lib s2 reason_err_create_account else (do
        s3 ← reconcile_policies lib mc s2.object
        if not s3.done then stopped lib s3 reason_err_create_policy else mark_ready s3.object))

  -- `return ctrl.Result{}, r.err(&a, err, reason)`
  unfoldable pub failed : BucketServiceAccount → Error → String → Program Reconciled
  failed a e reason = do e' ← handle_error lib a (some e) reason; returned e'

  unfoldable pub reconcile_with_provider : BucketServiceAccount → Program Reconciled
  reconcile_with_provider a = do
    found ← ask (get_provider (record { namespace = ""; name = a.spec.provider }))
    elim found [
      | err e ↦
          if is_not_found e
          then failed a (new ("referenced bucket provider " <> (a.spec.provider <> " not found")))
              err_provider_invalid
          else returned (some e)
      | ok p ↦ do
        client ← new_client lib p
        elim client [
          | err e ↦ failed a (wrap "unable to create minio client" e) err_provider_invalid
          | ok mc ↦ reconcile_resources mc a
        ]
    ]

  -- The first status of an account; the pass goes on with the account as the server has it.
  unfoldable pub reconcile_status : BucketServiceAccount → Program Reconciled
  reconcile_status a =
      if is_empty a.status.conditions
      then (do
        cs ← set_condition lib a.status.conditions (
            condition account_condition_creating status_true "Creating"
              "BucketServiceAccount is being created" a.metadata.generation)
        r ← ask (update_account_status (with_conditions a cs))
        elim r [ err e ↦ returned (some e) | ok a' ↦ reconcile_with_provider a' ])
      else reconcile_with_provider a

  unfoldable pub reconcile_object : BucketServiceAccount → Program Reconciled
  reconcile_object a =
      if not (is_zero a.metadata.deletion_timestamp)
      then reconcile_deleted a
      else let added = lib.add_finalizer a.metadata.finalizers finalizer in
        if added.updated
        then (do
          r ← ask (update_account (with_finalizers a added.finalizers))
          elim r [ err e ↦ returned (some e) | ok a' ↦ finished ])
        else reconcile_status a

  -- `Reconcile`
  unfoldable pub reconcile : NamespacedName → Program Reconciled
  reconcile key = do
    r ← ask (get_account key)
    elim r [
      | err e ↦ if is_not_found e then finished else returned (some e)
      | ok a ↦ reconcile_object a
    ]
