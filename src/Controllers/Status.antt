-- ===== src/Controllers/Status.antt =====
-- What the three reconcilers share: the results of a handler and of a step of it, conditions, and
-- the texts of errors.
use minio_bucket_controller.Base.{ℕ, String, ◌<>◌, Bool, true, false, List, Option, none, some}
use minio_bucket_controller.Errors.{Error, external, new, wrap, combine, key_not_found}
use minio_bucket_controller.Api.Meta.{Condition, ConditionStatus}
use minio_bucket_controller.Libraries.{Libraries}
use minio_bucket_controller.Program.{Program, ret, ask, ◌>>=◌, now}

-- controllers/bucket_controller.go: `finalizer`
abbrev pub finalizer : String
finalizer = "bucket.s3.linka.cloud/finalizer"

-- controllers/bucket_controller.go: `prefix`
abbrev pub prefix : String
prefix = "bucket.s3.linka.cloud/"

-- controllers/bucket_controller.go: `name`
abbrev pub name : String → String
name n = prefix <> n

-- controllers/bucketserviceaccount_controller.go: `saSecretSuffix`
abbrev pub sa_secret_suffix : String
sa_secret_suffix = "-sa"

-- `(ctrl.Result, error)`, with the delay in nanoseconds.
pub record Reconciled : Type 0 where
  pub requeue_after : ℕ
  pub error : Option Error

-- `return ctrl.Result{}, nil`
abbrev pub finished : Program Reconciled
finished = ret (record { requeue_after = 0; error = none })

-- `return ctrl.Result{}, err`
abbrev pub returned : Option Error → Program Reconciled
returned e = ret (record { requeue_after = 0; error = e })

-- `(ctrl.Result, bool, error)` of a step, with the object as the step leaves it.
pub record Step (O : Type 0) : Type 0 where
  pub object : O
  pub requeue_after : ℕ
  pub done : Bool
  pub error : Option Error

module _ {O : Type 0} where
  -- `return ctrl.Result{}, true, nil`
  abbrev pub go_on : O → Program (Step O)
  go_on o = ret (record { object = o; requeue_after = 0; done = true; error = none })

  -- `return ctrl.Result{}, false, nil`
  abbrev pub stop : O → Program (Step O)
  stop o = ret (record { object = o; requeue_after = 0; done = false; error = none })

  -- `return ctrl.Result{}, false, err`
  abbrev pub fail : O → Error → Program (Step O)
  fail o e = ret (record { object = o; requeue_after = 0; done = false; error = some e })

-- `metav1.Condition{…}` with the zero time.
abbrev pub condition : String → ConditionStatus → String → String → ℕ → Condition
condition type status reason message generation = record {
  type = type;
  status = status;
  reason = reason;
  message = message;
  observed_generation = generation;
  last_transition_time = 0;
}

module _ (lib : Libraries) where
  -- `meta.SetStatusCondition`, which reads the clock.
  abbrev pub set_condition : List Condition → Condition → Program (List Condition)
  set_condition cs c = do t ← ask now; ret (lib.set_status_condition cs c t)

  -- `err.Error()`
  abbrev pub error_text : Error → String
  error_text (external e) = e.text
  error_text (new s) = s
  error_text (wrap s e) = s <> (": " <> error_text e)
  error_text (combine e f) = lib.multierr_text (error_text e) (error_text f)
  error_text key_not_found = "key not found in secret"
