-- ===== src/Start/Ready.antt =====
-- main.go: what is there when the manager starts.
use minio_bucket_controller.Base.{
  String, ◌≡◌, ◌⊎◌, inl, inr, true, false, [], ◌∷◌, none, some, Option-cases, arith,
}
use mathlib.Core.Path.{subst}
use minio_bucket_controller.Errors.{ok, err}
use minio_bucket_controller.Libraries.{Libraries}
use minio_bucket_controller.Manager.{
  bucket_reconciler, account_reconciler, provider_reconciler, bucket_kind, provider_kind,
  account_kind, secret_kind,
}
use minio_bucket_controller.Program.{
  Call, Reply, halt, new_manager, index_buckets, start_collection, complete_controller,
  complete_webhook, add_healthz_check, add_readyz_check, start_manager,
}
use minio_bucket_controller.Program.Contract.{History, Contract, Meets}
use minio_bucket_controller.Controllers.Account.Policies.{owner_key}
use minio_bucket_controller.Controllers.Account.Index.{gc_frequency, gc_ttl}
use minio_bucket_controller.Start.{Flags, start, main, manager_options}
use minio_bucket_controller.Start.Identity.{Config, resolve}
use minio_bucket_controller.Start.Setup.{
  setup_bucket, setup_bucket_webhook, setup_account, setup_account_webhook, setup_provider,
  setup_provider_webhook,
}

-- Whether a call to set up a part of the manager succeeded, or failed.
abbrev Succeeded : (c : Call) → Reply c → Type 0
Succeeded (new_manager o) (ok u) = Unit
Succeeded (index_buckets field) (ok u) = Unit
Succeeded (start_collection r frequency ttl) u = Unit
Succeeded (complete_controller r kind owned) (ok u) = Unit
Succeeded (complete_webhook r kind defaulter) (ok u) = Unit
Succeeded (add_healthz_check s) (ok u) = Unit
Succeeded (add_readyz_check s) (ok u) = Unit
Succeeded start_manager (ok u) = Unit
Succeeded c r = ⊥

abbrev Refused : (c : Call) → Reply c → Type 0
Refused (new_manager o) (err e) = Unit
Refused (index_buckets field) (err e) = Unit
Refused (complete_controller r kind owned) (err e) = Unit
Refused (complete_webhook r kind defaulter) (err e) = Unit
Refused (add_healthz_check s) (err e) = Unit
Refused (add_readyz_check s) (err e) = Unit
Refused start_manager (err e) = Unit
Refused c r = ⊥

-- This call was made, and it succeeded.
abbrev pub Done : Call → History → Type 0
Done c [] = ⊥
Done c ((c', r) ∷ h) = ((c ≡ c') × Succeeded c' r) ⊎ Done c h

-- The last call failed.
abbrev pub Failed : History → Type 0
Failed [] = ⊥
Failed ((c, r) ∷ h) = Refused c r

-- All the parts, with the account reconciler of this name.
abbrev pub AllSetUp : Flags → String → History → Type 0
AllSetUp f name h =
    Done (new_manager (manager_options f)) h
    × Done (complete_controller bucket_reconciler bucket_kind (secret_kind ∷ [])) h
    × Done (complete_webhook bucket_reconciler bucket_kind true) h
    × Done (index_buckets owner_key) h
    × Done (start_collection (account_reconciler name) gc_frequency gc_ttl) h
    × Done
        (complete_controller (account_reconciler name) account_kind
          (bucket_kind ∷ secret_kind ∷ []))
        h
    × Done (complete_webhook (account_reconciler name) account_kind false) h
    × Done (complete_webhook (account_reconciler name) secret_kind false) h
    × Done (complete_controller provider_reconciler provider_kind []) h
    × Done (complete_webhook provider_reconciler provider_kind false) h
    × Done (add_healthz_check "healthz") h
    × Done (add_readyz_check "readyz") h

abbrev pub MayCall : Flags → Libraries → Config → History → Call → Type 0
MayCall f lib c h start_manager =
    (name : String) × (resolve lib c f.service_account ≡ some name) × AllSetUp f name h
MayCall f lib c h (start_collection r frequency ttl) = Done (index_buckets owner_key) h
MayCall f lib c h call = Unit

abbrev pub readiness : Flags → Libraries → Config → Contract (Unit {0})
readiness f lib c = record {
  may_call = MayCall f lib c;
  may_return = λ h u. Done start_manager h;
  may_halt = λ h. (resolve lib c f.service_account ≡ none) ⊎ Failed h;
}

start-readiness :
    (f : Flags) (lib : Libraries) (c : Config) (name : String)
    → resolve lib c f.service_account ≡ some name
    → Meets (readiness f lib c) [] (start f name)
unfolding start setup_bucket setup_bucket_webhook setup_account setup_account_webhook setup_provider
    setup_provider_webhook
start-readiness f lib c name e = ground arith

-- Where there is a name, `main` goes on with it.
main_lem :
    (lib : Libraries) (c : Config) (f : Flags) (name : String)
    → resolve lib c f.service_account ≡ some name
    → start f name ≡ main lib c f
unfolding main
main_lem lib c f name e = ground arith

main-no-name :
    (lib : Libraries) (c : Config) (f : Flags)
    → resolve lib c f.service_account ≡ none
    → halt ≡ main lib c f
unfolding main
main-no-name lib c f e = ground arith

-- Whatever is replied, main starts the manager only with a name for its service account, after it
-- made the manager with the flags' options, and the two checks, the index of buckets, the
-- collection, the three controllers and the four webhooks were set up with success, those of
-- accounts with that name. It starts the collection only after the index is there. It returns only
-- after the manager ended without an error, and exits otherwise: only where there is no name, or the
-- last call failed.
pub main-readiness :
    (f : Flags) (lib : Libraries) (c : Config) → Meets (readiness f lib c) [] (main lib c f)
main-readiness f lib c = elim (Option-cases (resolve lib c f.service_account)) [
  | inl missing ↦
      subst (λ m. Meets (readiness f lib c) [] m) (main-no-name lib c f missing) (inl missing)
  | inr (name, e) ↦
      subst (λ m. Meets (readiness f lib c) [] m) (main_lem lib c f name e)
        (start-readiness f lib c name e)
]
