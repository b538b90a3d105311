-- ===== src/Start/Setup.antt =====
-- controllers/*.go: the `SetupWithManager` and `SetupWebhookWithManager` methods.
use minio_bucket_controller.Base.{true, false, [], ◌∷◌}
use minio_bucket_controller.Errors.{Result, ok, err}
use minio_bucket_controller.Manager.{
  Reconciler, bucket_reconciler, provider_reconciler, bucket_kind, provider_kind, account_kind,
  secret_kind,
}
use minio_bucket_controller.Program.{
  Program, ret, ask, ◌>>=◌, ◌>>◌, index_buckets, start_collection, complete_controller,
  complete_webhook,
}
use minio_bucket_controller.Controllers.Account.Policies.{owner_key}
use minio_bucket_controller.Controllers.Account.Index.{gc_frequency, gc_ttl}

unfoldable pub setup_bucket : Program (Result (Unit {0}))
setup_bucket = ask (complete_controller bucket_reconciler bucket_kind (secret_kind ∷ []))

unfoldable pub setup_bucket_webhook : Program (Result (Unit {0}))
setup_bucket_webhook = ask (complete_webhook bucket_reconciler bucket_kind true)

-- The index comes first; the collection is started before the controller is complete.
unfoldable pub setup_account : Reconciler → Program (Result (Unit {0}))
setup_account r = do
  indexed ← ask (index_buckets owner_key)
  elim indexed [
    | err e ↦ ret (err e)
    | ok u ↦ do
      ask (start_collection r gc_frequency gc_ttl)
      ask (complete_controller r account_kind (bucket_kind ∷ secret_kind ∷ []))
  ]

-- The reconciler of accounts validates accounts, and secrets.
unfoldable pub setup_account_webhook : Reconciler → Program (Result (Unit {0}))
setup_account_webhook r = do
  accounts ← ask (complete_webhook r account_kind false)
  elim accounts [ err e ↦ ret (err e) | ok u ↦ ask (complete_webhook r secret_kind false) ]

unfoldable pub setup_provider : Program (Result (Unit {0}))
setup_provider = ask (complete_controller provider_reconciler provider_kind [])

unfoldable pub setup_provider_webhook : Program (Result (Unit {0}))
setup_provider_webhook = ask (complete_webhook provider_reconciler provider_kind false)
