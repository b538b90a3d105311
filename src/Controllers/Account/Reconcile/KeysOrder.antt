-- ===== src/Controllers/Account/Reconcile/KeysOrder.antt =====
-- controllers/bucketserviceaccount_controller.go: the user and the keys of an account come in order.
use minio_bucket_controller.Base.{String, List, [], ◌∷◌, arith}
use minio_bucket_controller.Errors.{Result, ok, err}
use minio_bucket_controller.Api.Account.{BucketServiceAccount}
use minio_bucket_controller.Libraries.{Libraries}
use minio_bucket_controller.Mc.Client.{Client}
use minio_bucket_controller.Program.{Credentials}
use minio_bucket_controller.Program.Contract.{History, Meets, Meets-seq}
use minio_bucket_controller.Controllers.Account.User.{reconcile_user}
use minio_bucket_controller.Controllers.Account.Keys.{
  delete_accounts, save_keys, add_keys, create_keys, reconcile_service_account,
}
use minio_bucket_controller.Controllers.Account.Reconcile.Order.{
  order, GoesOn, Fetched, WithUser, WithKeys,
}

module _ (lib : Libraries) where
  pub reconcile_user-order :
      (h : History) (mc : Client) (a : BucketServiceAccount)
      → Fetched h a
      → Meets (order (GoesOn WithUser)) h (reconcile_user lib mc a)
  unfolding reconcile_user
  reconcile_user-order h mc a f = ground arith

  save_keys-order :
      (h : History) (mc : Client) (a : BucketServiceAccount) (creds : Credentials)
      → Fetched h a
      → Meets (order (GoesOn WithKeys)) h (save_keys lib mc a creds)
  unfolding save_keys
  save_keys-order h mc a creds f = ground arith

  delete_accounts-order :
      (h : History) (mc : Client) (a : BucketServiceAccount) (vs : List String)
      → Fetched h a
      → Meets (order (λ h r. Fetched h a)) h (delete_accounts mc vs)
  unfolding delete_accounts
  delete_accounts-order h mc a [] f = f
  delete_accounts-order h mc a (v ∷ vs) f =
      (tt, elim [ err e ↦ f | ok u ↦ delete_accounts-order _ mc a vs f ])

  add_keys-order :
      (h : History) (mc : Client) (a : BucketServiceAccount) (r : Result (Unit {0}))
      → Fetched h a
      → Meets (order (GoesOn WithKeys)) h (add_keys lib mc a r)
  unfolding add_keys
  add_keys-order h mc a (err e) f = tt
  add_keys-order h mc a (ok u) f =
      (tt, elim [ err e ↦ tt | ok creds ↦ save_keys-order _ mc a creds f ])

  create_keys-order :
      (h : History) (mc : Client) (a : BucketServiceAccount)
      → Fetched h a
      → Meets (order (GoesOn WithKeys)) h (create_keys lib mc a)
  unfolding create_keys
  create_keys-order h mc a f = (
    tt,
    elim [
      | err e ↦ tt
      | ok vs ↦
          Meets-seq (order (GoesOn WithKeys)) (λ h r. Fetched h a) _ (delete_accounts mc vs) _
            (delete_accounts-order _ mc a vs f) (λ h' r f'. add_keys-order h' mc a r f')
    ],
  )

  pub reconcile_keys-order :
      (h : History) (mc : Client) (a : BucketServiceAccount)
      → WithUser h a
      → Meets (order (GoesOn WithKeys)) h (reconcile_service_account lib mc a)
  unfolding reconcile_service_account
  reconcile_keys-order h mc a p = grind (arith, create_keys-order)
