-- ===== src/Controllers/OwnerRef/Laws.antt =====
-- controllers/utils.go: the controller among the owners after `ForceControllerReference`.
use minio_bucket_controller.Base.{
  ℕ, suc, ◌≤◌, ◌≡◌, refl, ◌∙◌, true, false, List, [], ◌∷◌, none, some, arith, eq_iff, if◌then◌else◌,
  Bool-cases, Option-cases, inl, inr, All,
}
use mathlib.Core.Option.{some-injective}
use mathlib.Core.Path.{subst}
use minio_bucket_controller.Errors.{ok}
use minio_bucket_controller.Api.Meta.{OwnerReference, ObjectMeta}
use minio_bucket_controller.Api.Object.{Object}
use minio_bucket_controller.Libraries.{Libraries, GroupVersionKind}
use minio_bucket_controller.Libraries.Laws.{is_controller, first_controller, OwnerLaws}
use minio_bucket_controller.Controllers.OwnerRef.{
  controller_ref, force_controller_reference, refer_same_object, index_owner_ref, drop_owner_ref,
  old_controller, without_old, put_owner_ref,
}

abbrev pub count_controllers : List OwnerReference → ℕ
count_controllers [] = 0
count_controllers (r ∷ rs) =
    if is_controller r then suc (count_controllers rs) else count_controllers rs

module _ (lib : Libraries) where
  -- No two references are to the same object.
  abbrev pub IsDistinct : List OwnerReference → Type 0
  IsDistinct [] = Unit
  IsDistinct (r ∷ rs) = All (λ s. refer_same_object lib r s ≡ false) rs × IsDistinct rs

  -- Every reference has an API version that parses, so that it refers to the same object as itself.
  abbrev pub IsParsed : List OwnerReference → Type 0
  IsParsed = All (λ r. refer_same_object lib r r ≡ true)

  -- Two references to the object of a third refer to the same object.
  refer_same_object_euclid :
      (a b c : OwnerReference)
      → refer_same_object lib a c ≡ true
      → refer_same_object lib b c ≡ true
      → refer_same_object lib a b ≡ true
  unfolding refer_same_object
  refer_same_object_euclid a b c p q = grind (arith, eq_iff)

  first_controller-All :
      (P : OwnerReference → Type 0) (rs : List OwnerReference) (e : OwnerReference)
      → All P rs
      → first_controller rs ≡ some e
      → P e
  first_controller-All P [] e h f = cc
  first_controller-All P (r ∷ rs) e h f = elim (Bool-cases (is_controller r)) [
    | inl y ↦ subst P (some-injective r e (rw y at f)) h.0
    | inr n ↦ first_controller-All P rs e h.1 (rw n at f)
  ]

  -- Dropping the controller of well-formed owners leaves none.
  count_controllers-drop :
      (rs : List OwnerReference) (e : OwnerReference)
      → IsDistinct rs
      → IsParsed rs
      → count_controllers rs ≤ 1
      → first_controller rs ≡ some e
      → count_controllers (drop_owner_ref lib rs e) ≡ 0
  unfolding drop_owner_ref
  count_controllers-drop [] e d p c f = cc
  count_controllers-drop (r ∷ rs) e d p c f = elim (Bool-cases (is_controller r)) [
    | inl y ↦ ground (arith, some-injective r e (rw y at f))
    | inr n ↦ ground (
      arith,
      first_controller-All (λ s. refer_same_object lib r s ≡ false) rs e d.0 (rw n at f),
      count_controllers-drop rs e d.1 p.1 (rw n at c) (rw n at f),
    )
  ]

  -- Where there is no controller, the reference put in is the only one.
  put_owner_ref_fresh :
      (rs : List OwnerReference) (ref : OwnerReference)
      → is_controller ref ≡ true
      → count_controllers rs ≡ 0
      → (first_controller (put_owner_ref lib rs ref) ≡ some ref)
        × (count_controllers (put_owner_ref lib rs ref) ≡ 1)
  unfolding put_owner_ref index_owner_ref
  put_owner_ref_fresh [] ref c z = ground arith
  put_owner_ref_fresh (r ∷ rs) ref c z = ground (arith, put_owner_ref_fresh rs ref c)

  -- Where the controller is the object of the new reference, it is replaced.
  put_owner_ref_same :
      (rs : List OwnerReference) (e ref : OwnerReference)
      → IsDistinct rs
      → count_controllers rs ≤ 1
      → is_controller ref ≡ true
      → first_controller rs ≡ some e
      → refer_same_object lib e ref ≡ true
      → (first_controller (put_owner_ref lib rs ref) ≡ some ref)
        × (count_controllers (put_owner_ref lib rs ref) ≡ 1)
  unfolding put_owner_ref index_owner_ref
  put_owner_ref_same [] e ref d n c f same = cc
  put_owner_ref_same (r ∷ rs) e ref d n c f same = elim (Bool-cases (is_controller r)) [
    | inl y ↦ ground (arith, some-injective r e (rw y at f))
    | inr no_controller ↦ ground (
      arith,
      first_controller-All (λ s. refer_same_object lib r s ≡ false) rs e d.0
          (rw no_controller at f),
      refer_same_object_euclid r e ref,
      put_owner_ref_same rs e ref d.1 (rw no_controller at n) c (rw no_controller at f) same,
    )
  ]

  -- Owners with no controller have none counted.
  count_controllers-none :
      (rs : List OwnerReference) → first_controller rs ≡ none → count_controllers rs ≡ 0
  count_controllers-none [] f = refl
  count_controllers-none (r ∷ rs) f = ground (arith, count_controllers-none rs)

  abbrev PutsController : List OwnerReference → OwnerReference → Type 0
  PutsController rs ref =
      (first_controller (put_owner_ref lib (without_old lib rs ref) ref) ≡ some ref)
      × (count_controllers (put_owner_ref lib (without_old lib rs ref) ref) ≡ 1)

  module _ (laws : OwnerLaws lib) where
    without_old-PutsController :
        (rs : List OwnerReference) (ref : OwnerReference)
        → IsDistinct rs
        → IsParsed rs
        → count_controllers rs ≤ 1
        → is_controller ref ≡ true
        → PutsController rs ref
    unfolding without_old old_controller
    without_old-PutsController rs ref d p n c = elim (Option-cases (first_controller rs)) [
      | inl free ↦ ground (
        arith,
        laws.get_controller_of_lem rs,
        put_owner_ref_fresh rs ref c (count_controllers-none rs free),
      )
      | inr (e, there) ↦ elim (Bool-cases (refer_same_object lib e ref)) [
        | inl same ↦
            ground
              (arith, laws.get_controller_of_lem rs, put_owner_ref_same rs e ref d n c there same)
        | inr old ↦ ground (
          arith,
          laws.get_controller_of_lem rs,
          put_owner_ref_fresh (drop_owner_ref lib rs e) ref c
              (count_controllers-drop rs e d p n there),
        )
      ]
    ]

    -- On owners as the API server keeps them (no two references to one object, every API version
    -- parses, one controller at most), and with a `GetControllerOf` that returns the first controller,
    -- `ForceControllerReference` succeeds where the owner's kind is
    -- known, changes nothing but the owners, and leaves the owner as their only controller.
    pub force_controller_reference-controller :
        (owner : Object) (owner_meta controlled : ObjectMeta) (gvk : GroupVersionKind)
        → IsDistinct controlled.owner_references
        → IsParsed controlled.owner_references
        → count_controllers controlled.owner_references ≤ 1
        → lib.gvk_for_object owner ≡ ok gvk
        → (owners : List OwnerReference) × (force_controller_reference lib owner owner_meta
              controlled
            ≡ ok (record controlled { owner_references = owners }))
          × (lib.get_controller_of owners ≡ some (controller_ref lib owner_meta gvk))
          × (count_controllers owners ≡ 1)
    unfolding force_controller_reference controller_ref
    force_controller_reference-controller owner owner_meta controlled gvk d p n known =
        let ref = controller_ref lib owner_meta gvk in
        let owners = put_owner_ref lib (without_old lib controlled.owner_references ref) ref in
        let done = without_old-PutsController controlled.owner_references ref d p n refl in
        (
          owners,
          rw (known, force_controller_reference) refl,
          laws.get_controller_of_lem owners ∙ done.0,
          done.1,
        )
