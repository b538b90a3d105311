-- ===== src/Manager.antt =====
-- sigs.k8s.io/controller-runtime: what main.go and the SetupWithManager methods hand to the manager.
use minio_bucket_controller.Base.{ℕ, String, Bool}

-- The types of the objects that the controllers and the webhooks are registered for.
pub data Kind : Type 0 where
  bucket_kind provider_kind account_kind secret_kind : Kind

-- The reconcilers. The one of accounts has the name of the controller's own service account; their
-- clients, schemes and recorders come from the manager.
pub data Reconciler : Type 0 where
  bucket_reconciler provider_reconciler : Reconciler
  account_reconciler : String → Reconciler

-- `ctrl.Options`, with those of the webhook and the metrics server.
pub record ManagerOptions : Type 0 where
  pub health_probe_bind_address : String
  pub leader_election : Bool
  pub leader_election_id : String
  pub leader_election_release_on_cancel : Bool
  pub webhook_port : ℕ
  pub webhook_cert_dir : String
  pub metrics_bind_address : String
