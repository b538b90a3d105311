-- ===== src/Controllers/Bucket/Reconcile/Reachable.antt =====
-- controllers/bucket_controller.go: a bucket in the API server under passes and edits, in any order.
use minio_bucket_controller.Base.{
  String, ◌≡◌, refl, ap, false, ◌⊎◌, inl, inr, [], ◌∷◌, Option, none, some, arith, is_empty,
  Bool-cases,
}
use mathlib.Core.Path.{subst, sym}
use minio_bucket_controller.Errors.{ok, err}
use minio_bucket_controller.Api.Meta.{NamespacedName, is_zero}
use minio_bucket_controller.Api.Bucket.{
  Bucket, bucket_condition_creating, bucket_condition_ready, bucket_condition_error,
  bucket_condition_deleting,
}
use minio_bucket_controller.Libraries.{Libraries}
use minio_bucket_controller.Program.{Call, Reply, get_bucket, update_bucket_status}
use minio_bucket_controller.Program.Contract.{History}
use minio_bucket_controller.Program.Run.{Environment, run, Allowed, Meets-run}
use minio_bucket_controller.Controllers.Status.{Reconciled}
use minio_bucket_controller.Controllers.History.{fetched_bucket}
use minio_bucket_controller.Controllers.Bucket.Reconcile.{reconcile}
use minio_bucket_controller.Controllers.Bucket.Reconcile.Lifecycle.{
  stage_of, Moves, MovesFrom, lifecycle, reconcile-lifecycle,
}

-- The status that a run wrote, as the server took it.
abbrev pub Wrote : Bucket → History → Type 0
Wrote b [] = ⊥
Wrote b ((update_bucket_status b', ok b'') ∷ h) = (b ≡ b') ⊎ Wrote b h
Wrote b ((c, r) ∷ h) = Wrote b h

-- What the first fetch replied stays.
fetched_bucket-cons :
    (c : Call) (r : Reply c) (h : History) (b : Bucket)
    → fetched_bucket h ≡ some b
    → fetched_bucket ((c, r) ∷ h) ≡ some b
fetched_bucket-cons (get_bucket k) (ok b') h b f = rw (fetched_bucket, f) refl
fetched_bucket-cons (get_bucket k) (err e) h b f = f
fetched_bucket-cons _ r h b f = f

MovesFrom-or :
    (o : Option Bucket) (b b' : Bucket)
    → MovesFrom o b
    → MovesFrom (elim o [ none ↦ some b' | some x ↦ some x ]) b
MovesFrom-or none b b' p = elim p [ ]
MovesFrom-or (some b0) b b' p = p

MovesFrom-cons :
    (c : Call) (r : Reply c) (h : History) (b : Bucket)
    → MovesFrom (fetched_bucket h) b
    → MovesFrom (fetched_bucket ((c, r) ∷ h)) b
MovesFrom-cons (get_bucket k) (ok b') h b p = ground arith
MovesFrom-cons (get_bucket k) (err e) h b p = p
MovesFrom-cons _ r h b p = p

Wrote-MovesFrom :
    (h : History) (b : Bucket)
    → Allowed (lifecycle {A = Reconciled} (λ h s. Unit)) h
    → Wrote b h
    → MovesFrom (fetched_bucket h) b
Wrote-MovesFrom [] b a w = elim w [ ]
Wrote-MovesFrom ((update_bucket_status b', ok b'') ∷ h) b a (inl e) =
    subst (λ x. MovesFrom (fetched_bucket h) x) (sym e) a.0
Wrote-MovesFrom ((update_bucket_status b', ok b'') ∷ h) b a (inr w) = Wrote-MovesFrom h b a.1 w
Wrote-MovesFrom ((update_bucket_status b', err e) ∷ h) b a w = Wrote-MovesFrom h b a.1 w
Wrote-MovesFrom ((get_bucket k, r) ∷ h) b a w =
    MovesFrom-cons (get_bucket k) r h b (Wrote-MovesFrom h b a.1 w)
Wrote-MovesFrom ((c, r) ∷ h) b a w = Wrote-MovesFrom h b a.1 w

-- The phases that a bucket may be in: the deleting one only with a deletion time.
abbrev pub InPhases : Bucket → String → Type 0
InPhases b p =
    (p ≡ "")
    ⊎ ((p ≡ bucket_condition_creating)
        ⊎ ((p ≡ bucket_condition_ready)
            ⊎ ((p ≡ bucket_condition_error)
                ⊎ ((p ≡ bucket_condition_deleting)
                    × (is_zero b.metadata.deletion_timestamp ≡ false)))))

abbrev pub IsCoherent : Bucket → Type 0
IsCoherent b = InPhases b b.status.phase

-- A deletion time is never taken back.
abbrev KeepsDeletion : Bucket → Bucket → Type 0
KeepsDeletion b b' =
    is_zero b.metadata.deletion_timestamp ≡ false → is_zero b'.metadata.deletion_timestamp ≡ false

module _ (lib : Libraries) where
  -- What changes a stored bucket: an edit of anything but the status; and a status that some run of
  -- the reconciler wrote, in whatever environment, having fetched the bucket as it is stored.
  pub data Change : Bucket → Bucket → Type 1 where
    edited : (b b' : Bucket) → b'.status ≡ b.status → KeepsDeletion b b' → Change b b'
    passed :
        (E : Environment) (s : E.State) (key : NamespacedName) (b w : Bucket)
        → fetched_bucket (run E (reconcile lib key) [] s).history ≡ some b
        → Wrote w (run E (reconcile lib key) [] s).history
        → Change b (record b { status = w.status })

  -- The buckets that a bucket with no phase may become.
  pub data Reachable : Bucket → Type 1 where
    created : (b : Bucket) → b.status.phase ≡ "" → Reachable b
    changed : (b b' : Bucket) → Reachable b → Change b b' → Reachable b'

  Moves-InPhases :
      (b : Bucket) (p : String) → IsCoherent b → Moves (stage_of b) b.status.phase p → InPhases b p
  Moves-InPhases b p c m = elim (Bool-cases (is_zero b.metadata.deletion_timestamp)) [
    | inl alive ↦ elim (Bool-cases (is_empty b.status.conditions)) [
      | inl fresh ↦ ground arith
      | inr seen ↦ ground arith
    ]
    | inr gone ↦ ground arith
  ]

  Change-IsCoherent : (b b' : Bucket) → Change b b' → IsCoherent b → IsCoherent b'
  Change-IsCoherent _ _ (edited b b' same keeps) c =
      let phase = ap (λ st. st.phase) same in ground arith
  Change-IsCoherent _ _ (passed E s key b w f wrote) c =
      let (allowed, ended) =
        Meets-run E (lifecycle (λ h r. Unit)) (reconcile lib key) [] s (reconcile-lifecycle lib key)
          tt in
      let moved = Wrote-MovesFrom (run E (reconcile lib key) [] s).history w allowed wrote in
      Moves-InPhases b w.status.phase c (subst (λ o. MovesFrom o w) f moved)

  -- A bucket that starts without a phase and is changed by edits of all but its status, which never
  -- take its deletion time back, and by the statuses that runs of the reconciler write, whatever
  -- their environments, has no phase, `Creating`, `Ready` or `Error`, or it has `Deleting` and a
  -- deletion time.
  pub Reachable-IsCoherent : (b : Bucket) → Reachable b → IsCoherent b
  Reachable-IsCoherent _ (created b e) = inl e
  Reachable-IsCoherent _ (changed b0 b r c) = Change-IsCoherent b0 b c (Reachable-IsCoherent b0 r)
