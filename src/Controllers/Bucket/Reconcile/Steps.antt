-- ===== src/Controllers/Bucket/Reconcile/Steps.antt =====
-- controllers/bucket_controller.go: the steps of a pass where each reply lets it go on.
use minio_bucket_controller.Base.{
  String, ◌≡◌, refl, true, false, [], ◌∷◌, Option, none, some, All, arith,
}
use minio_bucket_controller.Base.Dict.{Dict, insert}
use mathlib.Core.Bool.{false≢true}
use minio_bucket_controller.Errors.{ok, err}
use minio_bucket_controller.Api.Bucket.{Bucket, BucketAccess, bucket_condition_ready}
use minio_bucket_controller.Api.Provider.{BucketProvider}
use minio_bucket_controller.Api.Secret.{Secret}
use minio_bucket_controller.Api.Object.{bucket, pointer, secret, secret_value}
use minio_bucket_controller.Libraries.{Libraries}
use minio_bucket_controller.Libraries.Laws.{EqualityLaws}
use minio_bucket_controller.Mc.Client.{Client}
use minio_bucket_controller.Program.{update_bucket_status}
use minio_bucket_controller.Program.Contract.{History, Meets, Meets-seq, Meets-if}
use minio_bucket_controller.Program.Relies.{is_ok, is_ok-ok, AllHelpful, relies, Meets-given}
use minio_bucket_controller.Controllers.Status.{Reconciled, Step}
use minio_bucket_controller.Controllers.Bucket.Resources.{
  reconcile_bucket, existing_bucket, reconcile_service_account, ensure_account,
}
use minio_bucket_controller.Controllers.Bucket.Credentials.{
  access_entries, access_of, Existing, apply_templates, delete_old_secret, find_secret, save_secret,
  save_if_changed, write_secret, reconcile_secret,
}
use minio_bucket_controller.Controllers.Bucket.Reconcile.{mark_ready}
use minio_bucket_controller.Controllers.Bucket.Reconcile.Helpful.{IsTemplate, IsAdoptable, Helpful}

-- The phase that was last written to the status of a bucket.
abbrev pub last_phase : History → Option String
last_phase [] = none
last_phase ((update_bucket_status b, ok b') ∷ h) = some b.status.phase
last_phase ((c, r) ∷ h) = last_phase h

module _ (lib : Libraries) (b : Bucket) (p : BucketProvider) (wanted : String) where
  abbrev pub GoesOn : History → Step Bucket → Type 0
  GoesOn h s =
      (s.done ≡ true)
      × (lib.is_status_condition_true s.object.status.conditions bucket_condition_ready ≡ false)

  abbrev pub Stays : History → Step Bucket → Type 0
  Stays h s = (s.done ≡ true) × (s.object ≡ b)

  pub reconcile_account-Stays :
      (laws : EqualityLaws lib) (h : History)
      → Meets (relies (Helpful lib b p wanted) Stays) h (reconcile_service_account lib b)
  unfolding reconcile_service_account ensure_account
  reconcile_account-Stays laws h = (
    tt,
    elim [
      | err e ↦ Meets-given (Helpful lib b p wanted) Stays _ _ λ helpful. absurd helpful.0
      | ok sa ↦
          Meets-given (Helpful lib b p wanted) Stays _ _
            λ helpful. rw (helpful.0, laws.deep_equal-pointer (bucket b)) (λ _. (refl, refl))
    ],
  )

  pub reconcile_bucket-Stays :
      (e : String) (h : History) (mc : Client)
      → b.status.endpoint ≡ some e
      → Meets (relies (Helpful lib b p wanted) Stays) h (reconcile_bucket lib mc b)
  unfolding reconcile_bucket existing_bucket
  reconcile_bucket-Stays e h mc there = ground arith

  pub mark_ready-last_phase :
      (h : History) (b' : Bucket)
      → lib.is_status_condition_true b'.status.conditions bucket_condition_ready ≡ false
      → Meets
          (relies (Helpful lib b p wanted) (λ h (r : Reconciled).
            (last_phase h ≡ some bucket_condition_ready)
            × (r ≡ record { requeue_after = 0; error = none })))
          h
          (mark_ready lib b')
  unfolding mark_ready
  mark_ready-last_phase h b' e = ground arith

  apply_templates-is_ok :
      (a : BucketAccess) (ts entries : Dict String)
      → All (IsTemplate lib) ts
      → is_ok (apply_templates lib a ts entries) ≡ true
  unfolding apply_templates
  apply_templates-is_ok a [] entries q = refl
  apply_templates-is_ok a ((k, v) ∷ ts) entries q =
      let (u, parsed) = is_ok-ok (lib.parse_template v) q.0.0 in
      let (text, executed) = is_ok-ok (lib.execute_template v a) (q.0.1 a) in
      rw (apply_templates, parsed, executed)
        (apply_templates-is_ok a ts (insert k text entries) q.1)

  save_secret-GoesOn :
      (h : History) (mc : Client) (found : Existing) (s : Secret)
      → lib.is_status_condition_true b.status.conditions bucket_condition_ready ≡ false
      → Meets (relies (Helpful lib b p wanted) GoesOn) h (save_secret lib mc b found s)
  unfolding save_secret
  save_secret-GoesOn h mc found s e = ground arith

  save_if_changed-GoesOn :
      (h : History) (mc : Client) (found : Existing) (s : Secret)
      → lib.is_status_condition_true b.status.conditions bucket_condition_ready ≡ false
      → Meets (relies (Helpful lib b p wanted) GoesOn) h (save_if_changed lib mc b found s)
  unfolding save_if_changed
  save_if_changed-GoesOn h mc found s e =
      Meets-if (relies (Helpful lib b p wanted) GoesOn) h
        (lib.deep_equal (secret_value found.old) (pointer (secret s))) _ _ (λ _ helpful. (refl, e))
        (λ _. save_secret-GoesOn h mc found s e)

  write_secret-GoesOn :
      (h : History) (mc : Client) (found : Existing)
      → All (IsTemplate lib) b.spec.secret_template
      → IsAdoptable lib b found.old.metadata
      → lib.is_status_condition_true b.status.conditions bucket_condition_ready ≡ false
      → Meets (relies (Helpful lib b p wanted) GoesOn) h (write_secret lib mc b found)
  unfolding write_secret
  write_secret-GoesOn h mc found templates adopts e = (
    tt,
    elim [
      | err e' ↦ λ helpful. absurd (helpful.0.1.1 refl)
      | ok s ↦
          let access = access_of mc b s in
          let (entries, applied) =
            is_ok-ok (apply_templates lib access b.spec.secret_template (access_entries access)) (
              apply_templates-is_ok access b.spec.secret_template (access_entries access)
                templates) in
          let (owned, adopted) =
            is_ok-ok
              (lib.set_controller_reference (bucket b)
                (record found.old.metadata { labels = b.metadata.labels }))
              adopts in
          rw (applied, adopted) (save_if_changed-GoesOn _ mc found _ e)
    ],
  )

  delete_old_secret-relies :
      (h : History)
      → Meets
          (relies (Helpful lib b p wanted) (λ h r. is_ok r ≡ true))
          h
          (delete_old_secret lib b wanted)
  unfolding delete_old_secret
  delete_old_secret-relies h = ground arith

  find_secret-relies :
      (h : History)
      → Meets
          (relies
            (Helpful lib b p wanted)
            (λ h r. elim r [ err e ↦ ⊥ | ok found ↦ IsAdoptable lib b found.old.metadata ]))
          h
          (find_secret lib b wanted)
  unfolding find_secret
  find_secret-relies h = ground arith

  pub reconcile_secret-GoesOn :
      (h : History) (mc : Client)
      → b.spec.secret_name ≡ some wanted
      → All (IsTemplate lib) b.spec.secret_template
      → lib.is_status_condition_true b.status.conditions bucket_condition_ready ≡ false
      → Meets (relies (Helpful lib b p wanted) GoesOn) h (reconcile_secret lib mc b)
  unfolding reconcile_secret
  reconcile_secret-GoesOn h mc named templates e =
      simp (reconcile_secret, named)
        (Meets-seq (relies (Helpful lib b p wanted) GoesOn)
          (λ h r. AllHelpful (Helpful lib b p wanted) h → is_ok r ≡ true) h
          (delete_old_secret lib b wanted) _ (delete_old_secret-relies h)
          λ h1. elim [
            | err e' ↦ λ q helpful. absurd (false≢true (q helpful))
            | ok u ↦ λ q.
                Meets-seq (relies (Helpful lib b p wanted) GoesOn) _ h1 (find_secret lib b wanted) _
                  (find_secret-relies h1)
                  λ h2. elim [
                    | err e' ↦ λ q helpful. absurd (q helpful)
                    | ok found ↦ λ q.
                        Meets-given (Helpful lib b p wanted) GoesOn h2 (write_secret lib mc b found)
                          λ helpful. write_secret-GoesOn h2 mc found templates (q helpful) e
                  ]
          ])
