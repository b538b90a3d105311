-- ===== src/Controllers/Provider.antt =====
-- controllers/bucketprovider_controller.go
pub mod Checks
pub mod Rule
pub mod Connects
use minio_bucket_controller.Base.{
  String, Bool, true, false, not, ◌&&◌, List, [], ◌∷◌, Option, none, some, if◌then◌else◌,
}
use minio_bucket_controller.Base.Dict.{has_key}
use minio_bucket_controller.Errors.{Error, Result, ok, err, ignore_not_found}
use minio_bucket_controller.Api.Meta.{NamespacedName, status_true, is_zero}
use minio_bucket_controller.Api.Provider.{
  BucketProvider, BucketProviderStatus, provider_condition_creating, provider_condition_ready,
  provider_condition_error, err_provider_invalid, err_provider_unavailable,
  default_provider_annotation,
}
use minio_bucket_controller.Api.Object.{provider}
use minio_bucket_controller.Libraries.{Libraries}
use minio_bucket_controller.Mc.Client.{Client}
use minio_bucket_controller.Mc.Connect.{new_mc}
use minio_bucket_controller.Program.{
  Program, ret, ask, ◌>>=◌, ◌>>◌, get_provider, list_providers, list_minio_buckets,
  update_provider_status,
}
use minio_bucket_controller.Recorder.{event, warn}
use minio_bucket_controller.Controllers.Status.{
  Reconciled, finished, returned, condition, set_condition, error_text,
}
use minio_bucket_controller.Controllers.SecretRef.{fetch_secret_ref}

-- The first provider that carries the annotation.
abbrev pub first_default : List BucketProvider → Option BucketProvider
first_default [] = none
first_default (v ∷ vs) =
    if has_key default_provider_annotation v.metadata.annotations then some v else first_default vs

-- `defaultProvider`
unfoldable pub default_provider : Program (Result (Option BucketProvider))
default_provider = do
  r ← ask list_providers
  elim r [ err e ↦ ret (err e) | ok items ↦ ret (ok (first_default items)) ]

module _ (lib : Libraries) where
  open lib use {find_status_condition, is_status_condition_true, remove_status_condition}

  -- `newClient`
  unfoldable pub new_client : BucketProvider → Program (Result Client)
  unfolding fetch_secret_ref new_mc
  new_client p = do
    access_key ← fetch_secret_ref lib (some p.spec.access_key)
    elim access_key [
      | err e ↦ ret (err e)
      | ok access ↦ do
        secret_key ← fetch_secret_ref lib (some p.spec.secret_key)
        elim secret_key [
          | err e ↦ ret (err e)
          | ok secret ↦ ret (
              new_mc lib (record {
                endpoint = p.spec.endpoint;
                access_key = access;
                secret_key = secret;
                secure = not p.spec.insecure;
              }))
        ]
    ]

  -- Neither `Error` nor `Ready` is there, and `Creating` is not true.
  abbrev pub is_new : BucketProviderStatus → Bool
  is_new s = elim (find_status_condition s.conditions provider_condition_error) [
    | some c ↦ false
    | none ↦ elim (find_status_condition s.conditions provider_condition_ready) [
      | some c ↦ false
      | none ↦ not (is_status_condition_true s.conditions provider_condition_creating)
    ]
  ]

  -- The new provider is marked as being created.
  unfoldable pub mark_creating : BucketProvider → Program Reconciled
  mark_creating p = do
    cs ← set_condition lib p.status.conditions (
        condition provider_condition_creating status_true "ProviderCreating"
          "Creating bucket provider" p.metadata.generation)
    r ← ask (
        update_provider_status
          (record p { status = record { conditions = cs; phase = provider_condition_creating } }))
    elim r [ err e ↦ returned (some e) | ok p' ↦ finished ]

  -- The two error branches, which differ in the reason and in the phase.
  unfoldable pub mark_failed : BucketProvider → String → String → Error → Program Reconciled
  unfolding warn
  mark_failed p reason phase e = do
    cs ← set_condition lib (remove_status_condition p.status.conditions provider_condition_ready) (
        condition provider_condition_error status_true reason (error_text lib e)
          p.metadata.generation)
    r ←
        ask
          (update_provider_status (record p { status = record { conditions = cs; phase = phase } }))
    elim r [
      | err e ↦ returned (some e)
      | ok p' ↦ do warn lib (provider p') reason (error_text lib e); finished
    ]

  unfoldable pub mark_ready : BucketProvider → Program Reconciled
  unfolding event
  mark_ready p =
      if not (is_status_condition_true p.status.conditions provider_condition_ready)
      then (do
        cs ← set_condition lib p.status.conditions (
            condition provider_condition_ready status_true "ProviderAvailable"
              "Bucket provider is available" p.metadata.generation)
        r ← ask (
            update_provider_status
              (record p { status = record { conditions = cs; phase = provider_condition_ready } }))
        elim r [
          | err e ↦ returned (some e)
          | ok p' ↦ do
            event lib (provider p') "ProviderAvailable" "Bucket provider available"
            finished
        ])
      else finished

  -- The provider is checked by a client that lists its buckets.
  unfoldable pub check_provider : BucketProvider → Program Reconciled
  unfolding new_client mark_failed mark_ready
  check_provider p = do
    client ← new_client p
    elim client [
      | err e ↦ mark_failed p err_provider_invalid provider_condition_error e
      | ok c ↦ do
        r ← ask (list_minio_buckets c)
        elim r [
          | err e ↦ mark_failed p err_provider_unavailable err_provider_unavailable e
          | ok buckets ↦ mark_ready p
        ]
    ]

  -- `Reconcile`
  unfoldable pub reconcile : NamespacedName → Program Reconciled
  unfolding mark_creating check_provider
  reconcile key = do
    r ← ask (get_provider key)
    elim r [
      | err e ↦ returned (ignore_not_found e)
      | ok p ↦
          if not (is_zero p.metadata.deletion_timestamp)
          then finished
          else if is_new p.status
          then mark_creating p
          else check_provider p
    ]
