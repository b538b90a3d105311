-- ===== src/Start.antt =====
-- main.go: `main`
pub mod Identity
pub mod Setup
pub mod Ready
use minio_bucket_controller.Base.{String, Bool, true, false, none, some}
use minio_bucket_controller.Errors.{Result, ok, err}
use minio_bucket_controller.Libraries.{Libraries}
use minio_bucket_controller.Manager.{
  ManagerOptions, bucket_reconciler, account_reconciler, provider_reconciler,
}
use minio_bucket_controller.Program.{
  Program, ret, halt, ask, ◌>>=◌, ◌>>◌, new_manager, add_healthz_check, add_readyz_check,
  start_manager,
}
use minio_bucket_controller.Start.Identity.{Config, resolve}
use minio_bucket_controller.Start.Setup.{
  setup_bucket, setup_bucket_webhook, setup_account, setup_account_webhook, setup_provider,
  setup_provider_webhook,
}

-- The values of the command's flags.
pub record Flags : Type 0 where
  pub metrics_addr : String
  pub probe_addr : String
  pub enable_leader_election : Bool
  pub certs : String
  pub service_account : String

abbrev pub default_flags : Flags
default_flags = record {
  metrics_addr = ":8080";
  probe_addr = ":8081";
  enable_leader_election = false;
  certs = "";
  service_account = "";
}

abbrev pub manager_options : Flags → ManagerOptions
manager_options f = record {
  health_probe_bind_address = f.probe_addr;
  leader_election = f.enable_leader_election;
  leader_election_id = "58e2baca.linka.cloud";
  leader_election_release_on_cancel = true;
  webhook_port = 9443;
  webhook_cert_dir = f.certs;
  metrics_bind_address = f.metrics_addr;
}

-- `if err := ...; err != nil { ...; os.Exit(1) }`
abbrev pub or_exit : Program (Result (Unit {0})) → Program (Unit {0})
or_exit m = do r ← m; elim r [ err e ↦ halt | ok u ↦ ret u ]

-- The manager is made, everything is set up, and the manager runs until it ends.
unfoldable pub start : Flags → String → Program (Unit {0})
start f service_account = do
  or_exit (ask (new_manager (manager_options f)))
  or_exit setup_bucket
  or_exit setup_bucket_webhook
  or_exit (setup_account (account_reconciler service_account))
  or_exit (setup_account_webhook (account_reconciler service_account))
  or_exit setup_provider
  or_exit setup_provider_webhook
  or_exit (ask (add_healthz_check "healthz"))
  or_exit (ask (add_readyz_check "readyz"))
  or_exit (ask start_manager)

-- `main`, with the flags and the client's configuration that it reads; a return is the status 0,
-- a halt the status 1.
unfoldable pub main : Libraries → Config → Flags → Program (Unit {0})
main lib c f = elim (resolve lib c f.service_account) [
  | none ↦ halt
  | some service_account ↦ start f service_account
]
