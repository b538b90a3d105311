-- ===== src/Controllers/Account/Reconcile/PassOrder.antt =====
-- controllers/bucketserviceaccount_controller.go: the order of a whole pass over an account.
use minio_bucket_controller.Base.{String, refl, not, [], arith}
use minio_bucket_controller.Errors.{Error, ok, err, is_not_found}
use minio_bucket_controller.Api.Meta.{NamespacedName}
use minio_bucket_controller.Api.Account.{BucketServiceAccount}
use minio_bucket_controller.Libraries.{Libraries}
use minio_bucket_controller.Mc.Client.{Client}
use minio_bucket_controller.Program.Contract.{History, Meets, Meets-seq, Meets-if}
use minio_bucket_controller.Controllers.Status.{Reconciled, Step}
use minio_bucket_controller.Controllers.Provider.{new_client}
use minio_bucket_controller.Controllers.Provider.Rule.{new_client-Meets}
use minio_bucket_controller.Controllers.Account.Failure.{handle_error, stopped}
use minio_bucket_controller.Controllers.Account.User.{reconcile_user}
use minio_bucket_controller.Controllers.Account.Keys.{reconcile_service_account}
use minio_bucket_controller.Controllers.Account.Policies.{reconcile_policies}
use minio_bucket_controller.Controllers.Account.Deletion.{
  mark_deleting, delete_from_provider, delete_keys, remove_account, reconcile_deletion,
}
use minio_bucket_controller.Controllers.Account.Reconcile.{
  reconcile_deleted, mark_ready, reconcile_resources, failed, reconcile_with_provider,
  reconcile_status, reconcile_object, reconcile,
}
use minio_bucket_controller.Controllers.Account.Reconcile.Order.{
  order, take, GoesOn, Fetched, WithUser, WithKeys, WithPolicies,
}
use minio_bucket_controller.Controllers.Account.Reconcile.KeysOrder.{
  reconcile_user-order, reconcile_keys-order,
}
use minio_bucket_controller.Controllers.Account.Reconcile.PoliciesOrder.{reconcile_policies-order}

module _ (lib : Libraries) where
  mark_ready-order :
      (h : History) (a : BucketServiceAccount)
      → WithPolicies h a
      → Meets (order (λ h s. Unit)) h (mark_ready lib a)
  unfolding mark_ready
  mark_ready-order h a p = ground arith

  stopped-order :
      (h : History) (s : Step BucketServiceAccount) (reason : String)
      → Meets (order (λ h s. Unit)) h (stopped lib s reason)
  unfolding stopped
  stopped-order h s reason = ground arith

  failed-order :
      (h : History) (a : BucketServiceAccount) (e : Error) (reason : String)
      → Meets (order (λ h s. Unit)) h (failed lib a e reason)
  unfolding failed handle_error
  failed-order h a e reason = ground arith

  reconcile_resources-order :
      (h : History) (mc : Client) (a : BucketServiceAccount)
      → Fetched h a
      → Meets (order (λ h s. Unit)) h (reconcile_resources lib mc a)
  unfolding reconcile_resources
  reconcile_resources-order h mc a f =
      Meets-seq (order (λ h s. Unit)) (GoesOn WithUser) h (reconcile_user lib mc a) _
        (reconcile_user-order lib h mc a f)
        λ h1 s1 p1.
          Meets-if (order (λ h s. Unit)) h1 (not s1.done) _ _ (λ _. stopped-order h1 s1 _)
            λ d1.
              Meets-seq (order (λ h s. Unit)) (GoesOn WithKeys) h1
                (reconcile_service_account lib mc s1.object) _
                (reconcile_keys-order lib h1 mc s1.object (take _ s1.done d1 p1))
                λ h2 s2 p2.
                  Meets-if (order (λ h s. Unit)) h2 (not s2.done) _ _ (λ _. stopped-order h2 s2 _)
                    λ d2.
                      Meets-seq (order (λ h s. Unit)) (GoesOn WithPolicies) h2
                        (reconcile_policies lib mc s2.object) _
                        (reconcile_policies-order lib h2 mc s2.object (take _ s2.done d2 p2))
                        λ h3 s3 p3.
                          Meets-if (order (λ h s. Unit)) h3 (not s3.done) _ _
                            (λ _. stopped-order h3 s3 _)
                            λ d3. mark_ready-order h3 s3.object (take _ s3.done d3 p3)

  reconcile_with_provider-order :
      (h : History) (a : BucketServiceAccount)
      → Fetched h a
      → Meets (order (λ h s. Unit)) h (reconcile_with_provider lib a)
  unfolding reconcile_with_provider
  reconcile_with_provider-order h a f = (
    tt,
    elim [
      | err e ↦
          Meets-if (order (λ h s. Unit)) _ (is_not_found e) _ _ (λ _. failed-order _ a _ _)
            (λ _. tt)
      | ok p ↦
          Meets-seq (order (λ h s. Unit)) (λ h c. Fetched h a) _ (new_client lib p) _
            (new_client-Meets {B = Reconciled} lib (order (λ h s. Unit)) (λ h. Fetched h a)
              (λ k h i. (tt, λ r. i)) p _ f)
            λ h'. elim [
              | err e ↦ λ f'. failed-order h' a _ _
              | ok mc ↦ λ f'. reconcile_resources-order h' mc a f'
            ]
    ],
  )

  reconcile_deleted-order :
      (h : History) (a : BucketServiceAccount)
      → Meets (order (λ h s. Unit)) h (reconcile_deleted lib a)
  unfolding reconcile_deleted reconcile_deletion mark_deleting delete_from_provider delete_keys
      remove_account new_client
  reconcile_deleted-order h a = ground arith

  reconcile_status-order :
      (h : History) (a : BucketServiceAccount)
      → Fetched h a
      → Meets (order (λ h s. Unit)) h (reconcile_status lib a)
  unfolding reconcile_status
  reconcile_status-order h a f = grind (arith, reconcile_with_provider-order)

  reconcile_object-order :
      (h : History) (a : BucketServiceAccount)
      → Fetched h a
      → Meets (order (λ h s. Unit)) h (reconcile_object lib a)
  unfolding reconcile_object
  reconcile_object-order h a f =
      ground (arith, reconcile_deleted-order h a, reconcile_status-order h a f)

  -- Whatever is replied, a pass over an account writes the phase `Ready` only where the account that
  -- the server replied last has that phase, or after MinIO replied that the user of such an account
  -- is there or was added, the server replied the secret of such an account's keys, and MinIO
  -- replied that the policies of such an account's user are set.
  pub reconcile-account_order :
      (key : NamespacedName) → Meets (order (λ h s. Unit)) [] (reconcile lib key)
  unfolding reconcile
  reconcile-account_order key =
      (tt, elim [ err e ↦ ground arith | ok a ↦ reconcile_object-order _ a refl ])
