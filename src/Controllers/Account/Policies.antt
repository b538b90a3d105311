-- ===== src/Controllers/Account/Policies.antt =====
-- controllers/bucketserviceaccount_controller.go: `reconcilePolicies` and `reconcilePolicy`
pub mod Laws
use minio_bucket_controller.Base.{
  String, ◌<>◌, ◌==◌, true, false, not, List, [], ◌∷◌, none, some, join, map, if◌then◌else◌,
}
use minio_bucket_controller.Base.Dict.{lookup}
use minio_bucket_controller.Errors.{ok, err, wrap}
use minio_bucket_controller.Api.Meta.{status_true}
use minio_bucket_controller.Api.Bucket.{Bucket}
use minio_bucket_controller.Api.Account.{BucketServiceAccount, account_condition_deletion_pending}
use minio_bucket_controller.Api.Object.{account}
use minio_bucket_controller.Libraries.{Libraries}
use minio_bucket_controller.Mc.Client.{Client}
use minio_bucket_controller.Mc.Policy.{policy}
use minio_bucket_controller.Program.{
  Program, ret, ask, ◌>>=◌, ◌>>◌, list_buckets, update_account_status, list_canned_policies,
  add_canned_policy, set_policy,
}
use minio_bucket_controller.Recorder.{event}
use minio_bucket_controller.Controllers.Status.{
  Step, go_on, stop, fail, condition, set_condition, name,
}
use minio_bucket_controller.Controllers.Account.Failure.{with_conditions, with_status}

-- `ownerKey`, the index of buckets by their controller
abbrev pub owner_key : String
owner_key = ".metadata.controller"

module _ (lib : Libraries) where
  unfoldable pub add_policy : Client → Bucket → String → Program (Step Bucket)
  add_policy mc b want = do
    r ← ask (add_canned_policy mc (name b.metadata.name) want)
    elim r [ err e ↦ fail b (wrap "unable to add policy" e) | ok _ ↦ go_on b ]

  -- The policy that MinIO has is compared with the one that is wanted.
  unfoldable pub want_policy : Client → Bucket → String → Program (Step Bucket)
  want_policy mc b want = do
    r ← ask (list_canned_policies mc)
    elim r [
      | err e ↦ fail b (wrap "unable to list policies" e)
      | ok ps ↦ elim (lookup (name b.metadata.name) ps) [
        | none ↦ add_policy mc b want
        | some js ↦ elim (lib.json_marshal js) [
          | err e ↦ fail b (wrap "unable to marshal policy" e)
          | ok got ↦ if got == want then go_on b else add_policy mc b want
        ]
      ]
    ]

  -- `reconcilePolicy`
  unfoldable pub reconcile_policy : Client → Bucket → Program (Step Bucket)
  reconcile_policy mc b = do want ← policy lib b.metadata.name; want_policy mc b want

  -- The loop over the buckets of the account, up to the first that did not go on.
  unfoldable pub reconcile_each :
      Client → BucketServiceAccount → List Bucket → Program (Step BucketServiceAccount)
  reconcile_each mc a [] = go_on a
  reconcile_each mc a (b ∷ bs) = do
    s ← reconcile_policy mc b
    elim s.done [
      | true ↦ reconcile_each mc a bs
      | false ↦
          ret
            (record { object = a; requeue_after = s.requeue_after; done = false; error = s.error })
    ]

  -- The names of the buckets' policies, as `SetPolicy` takes them.
  abbrev pub policy_names : List Bucket → String
  policy_names bs = join "," (map (λ b. name b.metadata.name) bs)

  -- The policies of the buckets, and the user's right to each.
  unfoldable pub assign_policies :
      Client → BucketServiceAccount → List Bucket → Program (Step BucketServiceAccount)
  unfolding event
  assign_policies mc a bs = do
    s ← reconcile_each mc a bs
    elim s.done [
      | false ↦ ret s
      | true ↦ do
        r ← ask (set_policy mc (policy_names bs) (name a.metadata.name))
        elim r [
          | err e ↦ fail a (wrap "unable to set policy" e)
          | ok _ ↦ do
            event lib (account a) "PolicyConfigured"
                ("Policy " <> (name a.metadata.name <> " configured"))
            go_on a
        ]
    ]

  -- No bucket uses the account: it is marked for deletion, unless it is.
  unfoldable pub mark_pending : Client → BucketServiceAccount → Program (Step BucketServiceAccount)
  mark_pending mc a =
      if not (lib.is_status_condition_true a.status.conditions account_condition_deletion_pending)
      then (do
        cs ← set_condition lib a.status.conditions (
            condition account_condition_deletion_pending status_true "DanglingServiceAccount"
              "Service account is not used by any bucket and will be deleted in 1 minute"
              a.metadata.generation)
        let pending = with_status a cs account_condition_deletion_pending
        r ← ask (update_account_status pending)
        elim r [ err e ↦ fail pending e | ok a' ↦ stop a' ])
      else assign_policies mc a []

  -- A bucket uses the account: the mark is taken off.
  unfoldable pub clear_pending :
      Client → BucketServiceAccount → List Bucket → Program (Step BucketServiceAccount)
  clear_pending mc a bs =
      if lib.is_status_condition_true a.status.conditions account_condition_deletion_pending
      then (do
        let cleared =
            with_conditions a
              (lib.remove_status_condition a.status.conditions account_condition_deletion_pending)
        r ← ask (update_account_status cleared)
        elim r [ err e ↦ fail cleared e | ok a' ↦ assign_policies mc a' bs ])
      else assign_policies mc a bs

  -- `reconcilePolicies`
  unfoldable pub reconcile_policies :
      Client → BucketServiceAccount → Program (Step BucketServiceAccount)
  reconcile_policies mc a = do
    r ← ask (list_buckets owner_key a.metadata.name)
    elim r [
      | err e ↦ fail a e
      | ok [] ↦ mark_pending mc a
      | ok (b ∷ bs) ↦ clear_pending mc a (b ∷ bs)
    ]
