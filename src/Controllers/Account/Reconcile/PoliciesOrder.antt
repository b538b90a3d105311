-- ===== src/Controllers/Account/Reconcile/PoliciesOrder.antt =====
-- controllers/bucketserviceaccount_controller.go: the policies of an account come after its keys.
use minio_bucket_controller.Base.{◌≡◌, refl, inl, inr, List, [], ◌∷◌, Bool-cases, arith}
use minio_bucket_controller.Errors.{ok, err}
use minio_bucket_controller.Api.Bucket.{Bucket}
use minio_bucket_controller.Api.Account.{BucketServiceAccount}
use minio_bucket_controller.Libraries.{Libraries}
use minio_bucket_controller.Mc.Client.{Client}
use minio_bucket_controller.Mc.Policy.{policy}
use minio_bucket_controller.Program.Contract.{History, Meets, Meets-seq}
use minio_bucket_controller.Controllers.Account.Policies.{
  add_policy, want_policy, reconcile_policy, reconcile_each, assign_policies, mark_pending,
  clear_pending, reconcile_policies,
}
use minio_bucket_controller.Controllers.Account.Reconcile.Order.{
  order, GoesOn, WithKeys, WithPolicies,
}

module _ (lib : Libraries) where
  reconcile_policy-order :
      (h : History) (mc : Client) (a : BucketServiceAccount) (b : Bucket)
      → WithKeys h a
      → Meets (order (λ h s. WithKeys h a)) h (reconcile_policy lib mc b)
  unfolding reconcile_policy policy want_policy add_policy
  reconcile_policy-order h mc a b p = ground arith

  reconcile_each-order :
      (h : History) (mc : Client) (a : BucketServiceAccount) (bs : List Bucket)
      → WithKeys h a
      → Meets (order (λ h s. WithKeys h a × (s.object ≡ a))) h (reconcile_each lib mc a bs)
  unfolding reconcile_each
  reconcile_each-order h mc a [] p = (p, refl)
  reconcile_each-order h mc a (b ∷ bs) p =
      Meets-seq (order (λ h s. WithKeys h a × (s.object ≡ a))) (λ h s. WithKeys h a) h
        (reconcile_policy lib mc b) _ (reconcile_policy-order h mc a b p)
        λ h' s p'. elim (Bool-cases s.done) [
          | inl done ↦ rw done (reconcile_each-order h' mc a bs p')
          | inr not_done ↦ rw not_done (p', refl)
        ]

  assign_policies-order :
      (h : History) (mc : Client) (a : BucketServiceAccount) (bs : List Bucket)
      → WithKeys h a
      → Meets (order (GoesOn WithPolicies)) h (assign_policies lib mc a bs)
  unfolding assign_policies
  assign_policies-order h mc a bs p =
      Meets-seq (order (GoesOn WithPolicies)) (λ h s. WithKeys h a × (s.object ≡ a)) h
        (reconcile_each lib mc a bs) _ (reconcile_each-order h mc a bs p)
        λ h' s p'. elim (Bool-cases s.done) [
          | inl done ↦ rw done (tt, elim [ err e ↦ tt | ok u ↦ ground arith ])
          | inr not_done ↦ rw not_done (rw not_done tt)
        ]

  mark_pending-order :
      (h : History) (mc : Client) (a : BucketServiceAccount)
      → WithKeys h a
      → Meets (order (GoesOn WithPolicies)) h (mark_pending lib mc a)
  unfolding mark_pending
  mark_pending-order h mc a p = ground (arith, assign_policies-order h mc a [] p)

  clear_pending-order :
      (h : History) (mc : Client) (a : BucketServiceAccount) (bs : List Bucket)
      → WithKeys h a
      → Meets (order (GoesOn WithPolicies)) h (clear_pending lib mc a bs)
  unfolding clear_pending
  clear_pending-order h mc a bs p = grind (arith, assign_policies-order)

  pub reconcile_policies-order :
      (h : History) (mc : Client) (a : BucketServiceAccount)
      → WithKeys h a
      → Meets (order (GoesOn WithPolicies)) h (reconcile_policies lib mc a)
  unfolding reconcile_policies
  reconcile_policies-order h mc a p = (
    tt,
    elim [
      | err e ↦ tt
      | ok [] ↦ mark_pending-order _ mc a p
      | ok (b ∷ bs) ↦ clear_pending-order _ mc a (b ∷ bs) p
    ],
  )
