-- ===== src/Controllers/Account/Reconcile/Steps.antt =====
-- controllers/bucketserviceaccount_controller.go: the steps of a pass where each reply
-- lets it go on.
use minio_bucket_controller.Base.{
  All, String, ◌≡◌, refl, true, List, [], ◌∷◌, Option, none, some, arith, inl, inr, Option-cases,
}
use minio_bucket_controller.Base.Dict.{Dict, lookup}
use mathlib.Core.Bool.{false≢true}
use minio_bucket_controller.Errors.{ok, err}
use minio_bucket_controller.Api.Bucket.{Bucket}
use minio_bucket_controller.Api.Provider.{BucketProvider}
use minio_bucket_controller.Api.Account.{BucketServiceAccount, account_condition_ready}
use minio_bucket_controller.Libraries.{Libraries}
use minio_bucket_controller.Mc.Client.{Client}
use minio_bucket_controller.Mc.Policy.{policy, policy_text}
use minio_bucket_controller.Mc.Connect.{generate_password}
use minio_bucket_controller.Program.{update_account_status}
use minio_bucket_controller.Program.Contract.{History, Meets, Meets-seq}
use minio_bucket_controller.Program.Relies.{is_ok, is_ok-ok, AllHelpful, relies, Meets-given}
use minio_bucket_controller.Controllers.Status.{Reconciled, Step, name}
use minio_bucket_controller.Controllers.Account.User.{reconcile_user}
use minio_bucket_controller.Controllers.Account.Keys.{reconcile_service_account}
use minio_bucket_controller.Controllers.Account.Policies.{
  add_policy, want_policy, reconcile_policy, reconcile_each, assign_policies, clear_pending,
  reconcile_policies,
}
use minio_bucket_controller.Controllers.Account.Reconcile.{mark_ready}
use minio_bucket_controller.Controllers.Account.Reconcile.Helpful.{
  IsPrepared, HasPolicy, AreListed, Helpful,
}

-- The phase that was last written to the status of an account.
abbrev pub last_phase : History → Option String
last_phase [] = none
last_phase ((update_account_status a, ok a') ∷ h) = some a.status.phase
last_phase ((c, r) ∷ h) = last_phase h

module _ (lib : Libraries) (a : BucketServiceAccount) (p : BucketProvider) where
  abbrev pub Stays : History → Step BucketServiceAccount → Type 0
  Stays h s = (s.done ≡ true) × (s.object ≡ a)

  abbrev pub Success : History → Reconciled → Type 0
  Success h r =
      (last_phase h ≡ some account_condition_ready)
      × (r ≡ record { requeue_after = 0; error = none })

  pub reconcile_user-Stays :
      (h : History) (mc : Client)
      → Meets (relies (Helpful lib a p) Stays) h (reconcile_user lib mc a)
  unfolding reconcile_user generate_password
  reconcile_user-Stays h mc = ground arith

  pub reconcile_keys-Stays :
      (h : History) (mc : Client)
      → Meets (relies (Helpful lib a p) Stays) h (reconcile_service_account lib mc a)
  unfolding reconcile_service_account
  reconcile_keys-Stays h mc = (
    tt,
    elim [
      | ok s ↦ λ helpful. (refl, refl)
      | err e ↦ Meets-given (Helpful lib a p) Stays _ _ λ helpful. absurd (false≢true helpful.0.1)
    ],
  )

  pub mark_ready-Success :
      (h : History)
      → IsPrepared lib a
      → Meets (relies (Helpful lib a p) Success) h (mark_ready lib a)
  unfolding mark_ready
  mark_ready-Success h prepared = ground (arith, prepared.not_ready, prepared.not_pending)

  lookup-AreListed :
      (ps : Dict String) (k js : String)
      → AreListed lib (ok ps)
      → lookup k ps ≡ some js
      → is_ok (lib.json_marshal js) ≡ true
  lookup-AreListed [] k js listed found = cc
  lookup-AreListed ((j, v) ∷ ps) k js listed found =
      ground (arith, listed.0, lookup-AreListed ps k js listed.1)

  want_policy-relies :
      (h : History) (mc : Client) (b : Bucket) (want : String)
      → Meets (relies (Helpful lib a p) (λ h s. s.done ≡ true)) h (want_policy lib mc b want)
  unfolding want_policy add_policy
  want_policy-relies h mc b want = (
    tt,
    elim [
      | err e ↦ λ helpful. absurd helpful.0
      | ok ps ↦ elim (Option-cases (lookup (name b.metadata.name) ps)) [
        | inl missing ↦ rw missing (ground arith)
        | inr (js, found) ↦
            Meets-given (Helpful lib a p) (λ h s. s.done ≡ true) _ _
              λ helpful.
                let (got, made) =
                  is_ok-ok (lib.json_marshal js) (lookup-AreListed ps _ js helpful.0 found) in
                rw (found, made) (ground arith)
      ]
    ],
  )

  reconcile_policy-relies :
      (h : History) (mc : Client) (b : Bucket)
      → HasPolicy lib b
      → Meets (relies (Helpful lib a p) (λ h s. s.done ≡ true)) h (reconcile_policy lib mc b)
  unfolding reconcile_policy policy
  reconcile_policy-relies h mc b policies =
      let (text, made) = is_ok-ok (lib.json_compact (policy_text b.metadata.name)) policies in
      simp (reconcile_policy, policy, made) (want_policy-relies h mc b text)

  reconcile_each-Stays :
      (h : History) (mc : Client) (bs : List Bucket)
      → All (HasPolicy lib) bs
      → Meets (relies (Helpful lib a p) Stays) h (reconcile_each lib mc a bs)
  unfolding reconcile_each
  reconcile_each-Stays h mc [] policies = λ helpful. (refl, refl)
  reconcile_each-Stays h mc (b ∷ bs) policies =
      Meets-seq (relies (Helpful lib a p) Stays)
        (λ h s. AllHelpful (Helpful lib a p) h → s.done ≡ true) h (reconcile_policy lib mc b) _
        (reconcile_policy-relies h mc b policies.0)
        λ h' s q.
          Meets-given (Helpful lib a p) Stays h' _
            λ helpful. rw (q helpful) (reconcile_each-Stays h' mc bs policies.1)

  assign_policies-Stays :
      (h : History) (mc : Client) (bs : List Bucket)
      → All (HasPolicy lib) bs
      → Meets (relies (Helpful lib a p) Stays) h (assign_policies lib mc a bs)
  unfolding assign_policies
  assign_policies-Stays h mc bs policies =
      Meets-seq (relies (Helpful lib a p) Stays) (λ h s. AllHelpful (Helpful lib a p) h → Stays h s)
        h (reconcile_each lib mc a bs) _ (reconcile_each-Stays h mc bs policies)
        λ h' s q.
          Meets-given (Helpful lib a p) Stays h' _ λ helpful. rw (q helpful).0 (ground arith)

  pub reconcile_policies-Stays :
      (h : History) (mc : Client)
      → IsPrepared lib a
      → Meets (relies (Helpful lib a p) Stays) h (reconcile_policies lib mc a)
  unfolding reconcile_policies clear_pending
  reconcile_policies-Stays h mc prepared = (
    tt,
    elim [
      | err e ↦ λ helpful. absurd helpful.0
      | ok [] ↦ Meets-given (Helpful lib a p) Stays _ _ λ helpful. absurd helpful.0
      | ok (b ∷ bs) ↦
          Meets-given (Helpful lib a p) Stays _ _
            λ helpful. rw prepared.not_pending (assign_policies-Stays _ mc (b ∷ bs) helpful.0)
    ],
  )
