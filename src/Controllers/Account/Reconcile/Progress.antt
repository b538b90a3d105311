-- ===== src/Controllers/Account/Reconcile/Progress.antt =====
-- controllers/bucketserviceaccount_controller.go: a pass that runs in an environment that helps it.
use minio_bucket_controller.Base.{String, ◌≡◌, sym, ap, ◌∙◌, not, [], none, some, if◌then◌else◌}
use mathlib.Core.Path.{subst}
use mathlib.Core.Bool.{false≢true}
use minio_bucket_controller.Errors.{ok, err}
use minio_bucket_controller.Api.Meta.{NamespacedName}
use minio_bucket_controller.Api.Provider.{BucketProvider}
use minio_bucket_controller.Api.Account.{
  BucketServiceAccount, account_condition_ready, reason_err_create_user, reason_err_create_account,
  reason_err_create_policy,
}
use minio_bucket_controller.Libraries.{Libraries}
use minio_bucket_controller.Mc.Client.{Client}
use minio_bucket_controller.Program.{Program, ◌>>=◌, get_account, get_provider}
use minio_bucket_controller.Program.Contract.{History, Meets, Meets-seq}
use minio_bucket_controller.Program.Run.{Environment, run}
use minio_bucket_controller.Program.Relies.{
  AllHelpful, relies, Meets-given, Meets-replied, Helps, Meets-helped,
}
use minio_bucket_controller.Controllers.Status.{Reconciled, Step}
use minio_bucket_controller.Controllers.Provider.{new_client}
use minio_bucket_controller.Controllers.Provider.Connects.{HasClients, Answers, new_client-relies}
use minio_bucket_controller.Controllers.Account.Failure.{stopped}
use minio_bucket_controller.Controllers.Account.User.{reconcile_user}
use minio_bucket_controller.Controllers.Account.Keys.{reconcile_service_account}
use minio_bucket_controller.Controllers.Account.Policies.{reconcile_policies}
use minio_bucket_controller.Controllers.Account.Reconcile.{
  mark_ready, reconcile_resources, reconcile_with_provider, reconcile_status, reconcile_object,
  reconcile,
}
use minio_bucket_controller.Controllers.Account.Reconcile.Helpful.{IsPrepared, Helpful}
use minio_bucket_controller.Controllers.Account.Reconcile.Steps.{
  last_phase, Stays, Success, reconcile_user-Stays, reconcile_keys-Stays, mark_ready-Success,
  reconcile_policies-Stays,
}

module _ (lib : Libraries) (a : BucketServiceAccount) (p : BucketProvider) where
  abbrev next :
      String
      → (BucketServiceAccount → Program Reconciled)
      → Step BucketServiceAccount
      → Program Reconciled
  next reason f s = if not s.done then stopped lib s reason else f s.object

  -- After a step that stays at the account, the pass goes on with the account.
  step-Success :
      (h : History) (m : Program (Step BucketServiceAccount)) (reason : String)
      (f : BucketServiceAccount → Program Reconciled)
      → Meets (relies (Helpful lib a p) (Stays lib a p)) h m
      → ((h : History) → Meets (relies (Helpful lib a p) (Success lib a p)) h (f a))
      → Meets (relies (Helpful lib a p) (Success lib a p)) h (m >>= next reason f)
  step-Success h m reason f stays rest =
      Meets-seq (relies (Helpful lib a p) (Success lib a p))
        (λ h s. AllHelpful (Helpful lib a p) h → (Stays lib a p) h s) h m (next reason f) stays
        λ h' s q. Meets-given (Helpful lib a p) (Success lib a p) h' (next reason f s) λ helpful.
          let (goes, same) = q helpful in
          rw goes (
            subst (λ x. Meets (relies (Helpful lib a p) (Success lib a p)) h' (f x)) (sym same)
              (rest h'))

  reconcile_resources-Success :
      (h : History) (mc : Client)
      → IsPrepared lib a
      → Meets (relies (Helpful lib a p) (Success lib a p)) h (reconcile_resources lib mc a)
  unfolding reconcile_resources
  reconcile_resources-Success h mc prepared =
      let to_policies : BucketServiceAccount → Program Reconciled =
        λ a. reconcile_policies lib mc a >>= next reason_err_create_policy (mark_ready lib) in
      let to_keys : BucketServiceAccount → Program Reconciled =
        λ a. reconcile_service_account lib mc a >>= next reason_err_create_account to_policies in
      step-Success h (reconcile_user lib mc a) reason_err_create_user to_keys
        (reconcile_user-Stays lib a p h mc)
        λ h1.
          step-Success h1 (reconcile_service_account lib mc a) reason_err_create_account to_policies
            (reconcile_keys-Stays lib a p h1 mc)
            λ h2.
              step-Success h2 (reconcile_policies lib mc a) reason_err_create_policy
                (mark_ready lib) (reconcile_policies-Stays lib a p h2 mc prepared)
                λ h3. mark_ready-Success lib a p h3 prepared

  reconcile_with_provider-Success :
      (h : History)
      → IsPrepared lib a
      → HasClients lib p
      → Meets (relies (Helpful lib a p) (Success lib a p)) h (reconcile_with_provider lib a)
  unfolding reconcile_with_provider
  reconcile_with_provider-Success h prepared clients =
      Meets-replied (Helpful lib a p) (Success lib a p) h (get_provider _) _ (ok p) (λ r e. e)
        (Meets-seq (relies (Helpful lib a p) (Success lib a p)) (Answers (Helpful lib a p)) _
          (new_client lib p) _ (new_client-relies (Helpful lib a p) lib p _ clients (λ k r q. q.0))
          λ h1. elim [
            | err e ↦ λ q.
                Meets-given (Helpful lib a p) (Success lib a p) h1 _
                  λ helpful. absurd (false≢true (q helpful))
            | ok mc ↦ λ q. reconcile_resources-Success h1 mc prepared
          ])

  reconcile_object-Success :
      (h : History)
      → IsPrepared lib a
      → HasClients lib p
      → Meets (relies (Helpful lib a p) (Success lib a p)) h (reconcile_object lib a)
  unfolding reconcile_object reconcile_status
  reconcile_object-Success h prepared clients =
      rw
        (
          reconcile_object, reconcile_status, prepared.alive, prepared.finalizer_there,
          prepared.conditions_there,
        )
        (reconcile_with_provider-Success h prepared clients)

  reconcile-Success :
      (key : NamespacedName)
      → IsPrepared lib a
      → HasClients lib p
      → Meets (relies (Helpful lib a p) (Success lib a p)) [] (reconcile lib key)
  unfolding reconcile
  reconcile-Success key prepared clients =
      Meets-replied (Helpful lib a p) (Success lib a p) [] (get_account key) _ (ok a) (λ r e. e)
        (reconcile_object-Success _ prepared clients)

  -- Take an account that nobody deletes, that is neither ready nor waits for its deletion, and that
  -- has its finalizer and a condition, where clients can be made for its provider. Let the server
  -- always reply this account, this provider, secrets with the keys that the provider refers to, and
  -- one bucket or more that the account controls, whose policies are made into JSON; let MinIO reply
  -- policies that are JSON; let there be random bytes, and let every other call that a pass makes
  -- succeed. Then a pass over the account returns without an error and without a delay, and the last
  -- phase that it wrote is `Ready`.
  pub reconcile_account-readies :
      IsPrepared lib a
      → HasClients lib p
      → (E : Environment) → Helps (Helpful lib a p) E
      → (key : NamespacedName) (s : E.State)
      → (last_phase (run E (reconcile lib key) [] s).history ≡ some account_condition_ready)
        × ((run E (reconcile lib key) [] s).value
            ≡ some (record { requeue_after = 0; error = none }))
  reconcile_account-readies prepared clients E helps key s =
      let (r, value, (phase, e)) =
        Meets-helped (Helpful lib a p) E (Success lib a p) (reconcile lib key) s
          (reconcile-Success key prepared clients) helps in
      (phase, value ∙ ap (λ r. some r) e)
