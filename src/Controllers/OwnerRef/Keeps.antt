-- ===== src/Controllers/OwnerRef/Keeps.antt =====
-- controllers/utils.go: the other owners after `ForceControllerReference`.
use minio_bucket_controller.Base.{
  ℕ, ◌≡◌, refl, sym, ◌∙◌, false, List, [], ◌∷◌, ◌++◌, ◌⊎◌, inl, inr, some, arith, Bool-cases,
  Option-cases, zero, suc, ap,
}
use mathlib.Core.Bool.{false≢true}
use minio_bucket_controller.Errors.{ok}
use minio_bucket_controller.Api.Meta.{OwnerReference, ObjectMeta}
use minio_bucket_controller.Api.Object.{Object}
use minio_bucket_controller.Libraries.{Libraries, GroupVersionKind}
use minio_bucket_controller.Controllers.OwnerRef.{
  set, controller_ref, force_controller_reference, refer_same_object, index_owner_ref,
  drop_owner_ref, old_controller, without_old, put_owner_ref,
}

-- A reference stands in a list.
abbrev pub Has : OwnerReference → List OwnerReference → Type 0
Has r [] = ⊥
Has r (x ∷ xs) = (r ≡ x) ⊎ Has r xs

Has-append : (r x : OwnerReference) (xs : List OwnerReference) → Has r xs → Has r (xs ++ (x ∷ []))
Has-append r x [] p = elim p [ ]
Has-append r x (y ∷ ys) (inl e) = inl e
Has-append r x (y ∷ ys) (inr p) = inr (Has-append r x ys p)

module _ (lib : Libraries) (r : OwnerReference) where
  Has-drop :
      (e : OwnerReference) (rs : List OwnerReference)
      → refer_same_object lib r e ≡ false
      → Has r rs
      → Has r (drop_owner_ref lib rs e)
  unfolding drop_owner_ref
  Has-drop e [] other p = elim p [ ]
  Has-drop e (x ∷ xs) other (inl here) = elim (Bool-cases (refer_same_object lib x e)) [
    | inl same ↦ absurd (false≢true (sym other ∙ (rw here same)))
    | inr differs ↦ rw differs (inl here)
  ]
  Has-drop e (x ∷ xs) other (inr p) = elim (Bool-cases (refer_same_object lib x e)) [
    | inl same ↦ rw same p
    | inr differs ↦ rw differs (inr (Has-drop e xs other p))
  ]

  Has-set :
      (ref : OwnerReference) (rs : List OwnerReference) (i : ℕ)
      → refer_same_object lib r ref ≡ false
      → index_owner_ref lib rs ref ≡ some i
      → Has r rs
      → Has r (set rs i ref)
  unfolding index_owner_ref
  Has-set ref [] i other e p = elim p [ ]
  Has-set ref (x ∷ xs) zero other e (inl here) =
      ground (arith, sym other ∙ ap (λ y. refer_same_object lib y ref) here)
  Has-set ref (x ∷ xs) zero other e (inr p) = inr p
  Has-set ref (x ∷ xs) (suc i) other e (inl here) = inl here
  Has-set ref (x ∷ xs) (suc i) other e (inr p) = inr (Has-set ref xs i other (ground arith) p)

  Has-put :
      (ref : OwnerReference) (rs : List OwnerReference)
      → refer_same_object lib r ref ≡ false
      → Has r rs
      → Has r (put_owner_ref lib rs ref)
  unfolding put_owner_ref
  Has-put ref rs other p = elim (Option-cases (index_owner_ref lib rs ref)) [
    | inl new ↦ ground (arith, Has-append r ref rs p)
    | inr (i, there) ↦ ground (arith, Has-set ref rs i other there p)
  ]

  Has-without_old :
      (ref : OwnerReference) (rs : List OwnerReference)
      → ((e : OwnerReference)
          → lib.get_controller_of rs ≡ some e
          → refer_same_object lib r e ≡ false)
      → Has r rs
      → Has r (without_old lib rs ref)
  unfolding without_old old_controller
  Has-without_old ref rs other p = elim (Option-cases (lib.get_controller_of rs)) [
    | inl missing ↦ ground arith
    | inr (e, there) ↦ elim (Bool-cases (refer_same_object lib e ref)) [
      | inl same ↦ ground arith
      | inr old ↦ ground (arith, Has-drop e rs (other e there) p)
    ]
  ]

  -- Where the owner's kind is known, a reference among the owners stays among them, if it refers
  -- neither to the object that becomes the controller nor to the one that was.
  pub force_controller_reference-keeps :
      (owner : Object) (owner_meta controlled : ObjectMeta) (gvk : GroupVersionKind)
      → lib.gvk_for_object owner ≡ ok gvk
      → refer_same_object lib r (controller_ref lib owner_meta gvk) ≡ false
      → ((e : OwnerReference)
          → lib.get_controller_of controlled.owner_references ≡ some e
          → refer_same_object lib r e ≡ false)
      → Has r controlled.owner_references
      → (m : ObjectMeta) × (force_controller_reference lib owner owner_meta controlled ≡ ok m)
        × Has r m.owner_references
  unfolding force_controller_reference
  force_controller_reference-keeps owner owner_meta controlled gvk known new old p =
      let ref = controller_ref lib owner_meta gvk in
      (
        record controlled {
          owner_references =
              put_owner_ref lib (without_old lib controlled.owner_references ref) ref;
        },
        rw (known, force_controller_reference) refl,
        Has-put ref (without_old lib controlled.owner_references ref) new
            (Has-without_old ref controlled.owner_references old p),
      )
