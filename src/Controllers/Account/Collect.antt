-- ===== src/Controllers/Account/Collect.antt =====
-- controllers/bucketserviceaccount_controller.go: `gc`, which deletes the accounts that have waited
-- for their deletion.
pub mod Laws
pub mod Progress
use minio_bucket_controller.Base.{
  ℕ, zero, suc, ◌+◌, ltb, ◌==◌, Bool, true, false, not, ◌||◌, List, [], ◌∷◌, Option, none, some,
  if◌then◌else◌,
}
use minio_bucket_controller.Errors.{ok, err}
use minio_bucket_controller.Api.Meta.{Condition, status_true}
use minio_bucket_controller.Api.Bucket.{bucket_condition_deleting}
use minio_bucket_controller.Api.Account.{
  BucketServiceAccount, account_condition_deleting, account_condition_deletion_pending,
}
use minio_bucket_controller.Libraries.{Libraries}
use minio_bucket_controller.Program.{
  Program, ret, ask, ◌>>=◌, ◌>>◌, list_accounts, update_account_status, delete_account, now,
}
use minio_bucket_controller.Controllers.Status.{condition, set_condition}
use minio_bucket_controller.Controllers.Account.Failure.{with_status}

-- The type of a condition for which the collection waits.
unfoldable pub is_waiting : Condition → Bool
is_waiting c = c.type == account_condition_deletion_pending || c.type == account_condition_deleting

-- The body of the loop over the conditions: `none` is `continue iter`, else it is `found`. The
-- clock is read only for a condition for which the collection waits.
unfoldable pub check_condition : ℕ → Condition → Program (Option Bool)
unfolding is_waiting
check_condition ttl c =
    if is_waiting c
    then (do
      t ← ask now
      if ltb t (c.last_transition_time + ttl) then ret none else ret (some true))
    else ret (some false)

-- The loop, with `found` as the last condition left it.
unfoldable pub scan : ℕ → List Condition → Bool → Program (Option Bool)
scan ttl [] found = ret (some found)
scan ttl (c ∷ cs) found = do
  checked ← check_condition ttl c
  elim checked [ none ↦ ret none | some found' ↦ scan ttl cs found' ]

module _ (lib : Libraries) where
  -- The account is deleted; an error is only logged.
  unfoldable pub drop_account : BucketServiceAccount → Program (Unit {0})
  drop_account a = do ask (delete_account a); ret tt

  -- It is marked as being deleted first, unless it is.
  unfoldable pub mark_and_drop : BucketServiceAccount → Program (Unit {0})
  unfolding drop_account
  mark_and_drop a =
      if not (lib.is_status_condition_true a.status.conditions account_condition_deleting)
      then (do
        cs ← set_condition lib a.status.conditions (
            condition account_condition_deleting status_true "BucketServiceAccountDeletion"
              "BucketServiceAccount is being deleted" a.metadata.generation)
        r ← ask (update_account_status (with_status a cs bucket_condition_deleting))
        elim r [ err e ↦ ret tt | ok a' ↦ drop_account a' ])
      else drop_account a

  -- The body of the loop over the accounts.
  unfoldable pub collect_account : ℕ → BucketServiceAccount → Program (Unit {0})
  collect_account ttl a = do
    found ← scan ttl a.status.conditions false
    elim found [ none ↦ ret tt | some waits ↦ if waits then mark_and_drop a else ret tt ]

  unfoldable pub collect_each : ℕ → List BucketServiceAccount → Program (Unit {0})
  collect_each ttl [] = ret tt
  collect_each ttl (a ∷ rest) = collect_account ttl a >> collect_each ttl rest

  -- One run of the collection.
  unfoldable pub collect : ℕ → Program (Unit {0})
  collect ttl = do
    r ← ask list_accounts
    elim r [ err e ↦ ret tt | ok items ↦ collect_each ttl items ]

  -- `gc`, up to the end of its context: a run for each tick until then.
  unfoldable pub gc : ℕ → ℕ → Program (Unit {0})
  gc ttl zero = ret tt
  gc ttl (suc ticks) = collect ttl >> gc ttl ticks
