-- ===== src/Controllers/Account/Collect/Progress.antt =====
-- controllers/bucketserviceaccount_controller.go: `gc` in an environment that answers.
use minio_bucket_controller.Base.{
  ℕ, ◌+◌, ◌≤◌, ltb, ◌≡◌, refl, sym, ap, ◌∙◌, Bool, Bool-cases, true, false, List, [], ◌∷◌, Option,
  none, some, All, inl, inr, arith, if◌then◌else◌,
}
use mathlib.Core.Path.{subst}
use mathlib.Core.Bool.{false≢true}
use minio_bucket_controller.Errors.{Result, ok, err}
use minio_bucket_controller.Api.Meta.{Condition}
use minio_bucket_controller.Api.Account.{BucketServiceAccount, account_condition_deleting}
use minio_bucket_controller.Libraries.{Libraries}
use minio_bucket_controller.Program.{ret, delete_account, update_account_status, now}
use minio_bucket_controller.Program.Contract.{History}
use minio_bucket_controller.Program.Run.{Environment, Run, run, run-bind}
use minio_bucket_controller.Controllers.Account.Collect.{
  is_waiting, check_condition, scan, drop_account, mark_and_drop, collect_account,
}
use minio_bucket_controller.Controllers.Account.Collect.Laws.{IsTarget, last_waiting}

-- The last call deletes this account, as it was listed or as the server replied it after its status
-- was written.
abbrev pub EndsWithDelete : BucketServiceAccount → History → Type 0
EndsWithDelete a [] = ⊥
EndsWithDelete a ((delete_account a', r) ∷ h) = IsTarget a a' h
EndsWithDelete a ((c, r) ∷ h) = ⊥

-- The conditions for which the collection waits are as old as the time to live at this time.
abbrev pub IsOlder : ℕ → ℕ → List Condition → Type 0
IsOlder t ttl = All (λ c. c.last_transition_time + ttl ≤ t)

abbrev pub is_ok : {A : Type 0} → Result A → Bool
is_ok (ok a) = true
is_ok (err e) = false

-- The clock never reads less than this.
abbrev pub IsLate : Environment → ℕ → Type 0
IsLate E t = (s : E.State) → t ≤ (E.answer now s).0

-- The server writes what it is given to the status of an account.
abbrev pub IsWritable : Environment → Type 0
IsWritable E =
    (a : BucketServiceAccount) (s : E.State) → is_ok (E.answer (update_account_status a) s).0 ≡ true

not_below : (x y : ℕ) → y ≤ x → ltb x y ≡ false
not_below x y p = ground arith

module _ (E : Environment) (t ttl : ℕ) (late : IsLate E t) where
  past :
      (c : Condition) (s : E.State)
      → c.last_transition_time + ttl ≤ t
      → c.last_transition_time + ttl ≤ (E.answer now s).0
  past c s old = let clock : t ≤ (E.answer now s).0 = late s in ground (arith, clock)

  expired-run :
      (young : Bool) (h : History) (s : E.State)
      → young ≡ false
      → (run E (if young then ret none else ret (some true)) h s).value ≡ some (some true)
  unfolding run
  expired-run false h s e = refl
  expired-run true h s e = absurd (false≢true (sym e))

  check_condition-run :
      (c : Condition) (h : History) (s : E.State)
      → c.last_transition_time + ttl ≤ t
      → (run E (check_condition ttl c) h s).value ≡ some (some (is_waiting c))
  unfolding check_condition run
  check_condition-run c h s old = elim (Bool-cases (is_waiting c)) [
    | inl waits ↦ rw waits (expired-run _ _ _ (not_below _ _ (past c s old)))
    | inr other ↦ rw other refl
  ]

  scan-run :
      (cs : List Condition) (found : Bool) (h : History) (s : E.State)
      → IsOlder t ttl cs
      → (run E (scan ttl cs found) h s).value ≡ some (some (last_waiting cs found))
  unfolding scan run
  scan-run [] found h s old = refl
  scan-run (c ∷ cs) found h s old =
      ap (λ (r : Run E (Option Bool)). r.value)
        (run-bind E (check_condition ttl c) _ h s (some (is_waiting c))
          (check_condition-run c h s old.0))
      ∙ scan-run cs (is_waiting c) _ _ old.1

  drop_written-run :
      (lib : Libraries) (a a1 : BucketServiceAccount) (r : Result BucketServiceAccount)
      (h : History) (s : E.State)
      → a1.metadata ≡ a.metadata
      → is_ok r ≡ true
      → EndsWithDelete a
          (run E
            (elim r [ err e ↦ ret tt | ok a' ↦ drop_account lib a' ])
            ((update_account_status a1, r) ∷ h)
            s).history
  unfolding drop_account run
  drop_written-run lib a a1 (ok a') h s same written = inr (inl (same, refl))
  drop_written-run lib a a1 (err e) h s same written = absurd (false≢true written)

  mark_and_drop-run :
      (lib : Libraries) (a : BucketServiceAccount) (h : History) (s : E.State)
      → IsWritable E
      → EndsWithDelete a (run E (mark_and_drop lib a) h s).history
  unfolding mark_and_drop run
  mark_and_drop-run lib a h s writable =
      elim (Bool-cases
        (lib.is_status_condition_true a.status.conditions account_condition_deleting)) [
          | inl marked ↦ rw marked (inl refl)
          | inr other ↦ rw other (drop_written-run lib a _ _ _ _ refl (writable _ _))
        ]

  -- Where the clock has passed the time to live of each of an account's conditions, the last of them
  -- is `DeletionPending` or `Deleting`, and the server writes what it is given to the status of an
  -- account, a run of the collection deletes the account, as it was listed or as the server replied
  -- it after its status was written: this deletion is its last call.
  pub collect_account-collects :
      (lib : Libraries) (a : BucketServiceAccount) (h : History) (s : E.State)
      → IsOlder t ttl a.status.conditions
      → last_waiting a.status.conditions false ≡ true
      → IsWritable E
      → EndsWithDelete a (run E (collect_account lib ttl a) h s).history
  unfolding collect_account
  collect_account-collects lib a h s old waits writable =
      subst (λ (r : Run E (Unit {0})). EndsWithDelete a r.history)
        (sym (
          run-bind E (scan ttl a.status.conditions false) _ h s
            (some (last_waiting a.status.conditions false))
            (scan-run a.status.conditions false h s old)))
        (rw waits (mark_and_drop-run lib a _ _ writable))
