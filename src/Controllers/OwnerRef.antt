-- ===== src/Controllers/OwnerRef.antt =====
-- controllers/utils.go: the owner reference that makes an object the controller of another.
pub mod Laws
pub mod Keeps
use minio_bucket_controller.Base.{
  ℕ, zero, suc, String, ◌==◌, Bool, true, false, not, ◌&&◌, List, [], ◌∷◌, ◌++◌, Option, none, some,
  if◌then◌else◌,
}
use minio_bucket_controller.Errors.{Result, ok, err}
use minio_bucket_controller.Api.Meta.{OwnerReference, ObjectMeta}
use minio_bucket_controller.Api.Object.{Object}
use minio_bucket_controller.Libraries.{Libraries, GroupVersionKind}

-- `owners[i] = ref`
abbrev pub set {ℓ} : {A : Type ℓ} → List A → ℕ → A → List A
set [] i v = []
set (x ∷ xs) zero v = v ∷ xs
set (x ∷ xs) (suc i) v = x ∷ set xs i v

module _ (lib : Libraries) where
  open lib use {get_controller_of, parse_group_version, gvk_for_object}

  unfoldable pub refer_same_object : OwnerReference → OwnerReference → Bool
  refer_same_object a b = elim (parse_group_version a.api_version) [
    | err e ↦ false
    | ok a_gv ↦ elim (parse_group_version b.api_version) [
      | err e ↦ false
      | ok b_gv ↦ a_gv.group == b_gv.group && a.kind == b.kind && a.name == b.name
    ]
  ]

  -- `none` is -1.
  unfoldable pub index_owner_ref : List OwnerReference → OwnerReference → Option ℕ
  index_owner_ref [] ref = none
  index_owner_ref (r ∷ rs) ref =
      let rest : Option ℕ = elim (index_owner_ref rs ref) [ none ↦ none | some i ↦ some (suc i) ] in
      if refer_same_object r ref then some 0 else rest

  -- The loop that takes out the first reference to the object that is removed.
  unfoldable pub drop_owner_ref : List OwnerReference → OwnerReference → List OwnerReference
  drop_owner_ref [] remove = []
  drop_owner_ref (r ∷ rs) remove =
      let rest = drop_owner_ref rs remove in if refer_same_object r remove then rs else r ∷ rest

  -- The controller that is there, if it is another object than the new one.
  unfoldable pub old_controller : List OwnerReference → OwnerReference → Option OwnerReference
  old_controller owners ref = elim (get_controller_of owners) [
    | none ↦ none
    | some existing ↦ if not (refer_same_object existing ref) then some existing else none
  ]

  -- The owners with the old controller taken out.
  unfoldable pub without_old : List OwnerReference → OwnerReference → List OwnerReference
  without_old owners ref = elim (old_controller owners ref) [
    | none ↦ owners
    | some remove ↦ drop_owner_ref owners remove
  ]

  -- The new reference put in, in the place of one to the same object if there is one.
  unfoldable pub put_owner_ref : List OwnerReference → OwnerReference → List OwnerReference
  put_owner_ref owners ref = elim (index_owner_ref owners ref) [
    | none ↦ owners ++ (ref ∷ [])
    | some i ↦ set owners i ref
  ]

  unfoldable pub controller_ref : ObjectMeta → GroupVersionKind → OwnerReference
  controller_ref owner gvk = record {
    api_version = gvk.group_version;
    kind = gvk.kind;
    name = owner.name;
    uid = owner.uid;
    block_owner_deletion = some true;
    controller = some true;
  }

  -- `ForceControllerReference`, for an owner that is a `runtime.Object`, as every type of the
  -- program is; its metadata is the second argument.
  unfoldable pub force_controller_reference : Object → ObjectMeta → ObjectMeta → Result ObjectMeta
  force_controller_reference owner owner_meta controlled = elim (gvk_for_object owner) [
    | err e ↦ err e
    | ok gvk ↦
        let ref = controller_ref owner_meta gvk in
        let owners = without_old controlled.owner_references ref in
        ok (record controlled { owner_references = put_owner_ref owners ref })
  ]
