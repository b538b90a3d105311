-- ===== src/Controllers/Bucket/Reconcile/Termination.antt =====
-- controllers/bucket_controller.go: how many passes write the spec of a bucket or its finalizer.
use minio_bucket_controller.Base.{ℕ, suc, ◌<◌, ◌≡◌, ◌==◌, true, false, ◌⊎◌, [], ◌∷◌, some}
use minio_bucket_controller.Errors.{ok}
use minio_bucket_controller.Api.Meta.{NamespacedName, is_zero}
use minio_bucket_controller.Api.Bucket.{Bucket}
use minio_bucket_controller.Libraries.{Libraries}
use minio_bucket_controller.Program.{update_bucket}
use minio_bucket_controller.Program.Contract.{History}
use minio_bucket_controller.Program.Run.{Environment, run}
use minio_bucket_controller.Controllers.History.{fetched_bucket}
use minio_bucket_controller.Controllers.Bucket.Reconcile.{reconcile}
use minio_bucket_controller.Controllers.Bucket.Reconcile.Completion.{missing}

-- The run wrote this bucket, and the server took it.
abbrev pub Updated : Bucket → History → Type 0
Updated b [] = ⊥
Updated b ((update_bucket b', ok b'') ∷ h) = (b ≡ b') ⊎ Updated b h
Updated b ((c, r) ∷ h) = Updated b h

module _ (lib : Libraries) where
  -- A run of the reconciler, in whatever environment, that fetched one bucket and wrote the other.
  pub data Pass : Bucket → Bucket → Type 1 where
    ran :
        (E : Environment) (s : E.State) (key : NamespacedName) (b b' : Bucket)
        → fetched_bucket (run E (reconcile lib key) [] s).history ≡ some b
        → Updated b' (run E (reconcile lib key) [] s).history
        → Pass b b'

  -- So many passes, one after the other, over a bucket that nobody deletes and in which something is
  -- missing before each; a default provider has a name.
  pub data Passes : ℕ → Bucket → Bucket → Type 1 where
    none_left : (b : Bucket) → Passes 0 b b
    one_more :
        (n : ℕ) (b b' b'' : Bucket)
        → is_zero b.metadata.deletion_timestamp ≡ true
        → 0 < missing b
        → (b'.spec.provider == "") ≡ false
        → Pass b b'
        → Passes n b' b''
        → Passes (suc n) b b''
