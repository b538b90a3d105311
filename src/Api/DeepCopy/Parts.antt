-- ===== src/Api/DeepCopy/Parts.antt =====
-- api/v1alpha1/zz_generated.deepcopy.go: the pointers, the maps and the slices.
use mathlib.Core.List.{append_assoc, append-nil}
use minio_bucket_controller.Base.{
  String, ◌==◌, eq_iff, ◌≡◌, refl, sym, ◌∙◌, ap, true, false, ◌||◌, List, [], ◌∷◌, ◌++◌, Option,
  none, some, map, arith,
}
use minio_bucket_controller.Base.Dict.{Dict, has_key, insert}
use minio_bucket_controller.Api.Meta.{Condition}
use minio_bucket_controller.Api.DeepCopy.Memory.{
  Cell, text_cell, map_cell, conditions_cell, Memory, Copy, pure, and_then,
}
use minio_bucket_controller.Api.DeepCopy.View.{
  distinct, text_of, map_of, conditions_of, view_text, view_map, view_conditions, view_items,
  view_each,
}
use minio_bucket_controller.Api.DeepCopy.Copies.{
  fill, copy_text, copy_map, copy_conditions, copy_items, copy_each,
}
use minio_bucket_controller.Api.DeepCopy.Deep.{IsLocal, IsDeep, Copied}
use minio_bucket_controller.Api.DeepCopy.Deep.Reference.{
  CopiedCell, view_reference-IsLocal, unless_nil-IsDeep,
}
use minio_bucket_controller.Api.DeepCopy.Deep.Struct.{view_each-IsLocal, copy_each-IsDeep}

insert-missing :
    (k v : String) (d : Dict String) → has_key k d ≡ false → insert k v d ≡ d ++ ((k, v) ∷ [])
insert-missing k v [] e = refl
insert-missing k v ((j, w) ∷ d) e = ground (arith, insert-missing k v d)

has_key-append :
    (j k v : String) (d : Dict String) → has_key j (d ++ ((k, v) ∷ [])) ≡ (has_key j d || k == j)
has_key-append j k v [] = ground arith
has_key-append j k v ((i, w) ∷ d) = ground (arith, has_key-append j k v d)

-- No key of the second map is in the first.
abbrev Apart : Dict String → Dict String → Type 0
Apart out [] = Unit
Apart out ((k, v) ∷ d) = (has_key k out ≡ false) × Apart out d

Apart-insert :
    (k v : String) (out d : Dict String)
    → Apart out d
    → has_key k d ≡ false
    → Apart (out ++ ((k, v) ∷ [])) d
Apart-insert k v out [] p e = tt
Apart-insert k v out ((j, w) ∷ d) p e = (
  rw (has_key-append j k v out) (ground (arith, eq_iff j k, eq_iff k j)),
  Apart-insert k v out d p.1 (ground arith),
)

Apart-nil : (d : Dict String) → Apart [] d
Apart-nil [] = tt
Apart-nil ((k, v) ∷ d) = (refl, Apart-nil d)

fill-Apart : (out d : Dict String) → Apart out d → distinct d ≡ true → fill out d ≡ out ++ d
fill-Apart out [] p e = sym (append-nil out)
fill-Apart out ((k, v) ∷ d) p e =
    ap (λ o. fill o d) (insert-missing k v out p.0)
    ∙ fill-Apart (out ++ ((k, v) ∷ [])) d (Apart-insert k v out d p.1 (ground arith)) (ground arith)
    ∙ append_assoc out ((k, v) ∷ []) d

-- A map that is copied entry by entry has the same entries.
fill-distinct : (d : Dict String) → distinct d ≡ true → fill [] d ≡ d
fill-distinct d e = fill-Apart [] d (Apart-nil d) e

map_same :
    (copy_condition : Condition → Condition)
    → ((c : Condition) → copy_condition c ≡ c)
    → (cs : List Condition) → map copy_condition cs ≡ cs
map_same copy_condition same [] = refl
map_same copy_condition same (c ∷ cs) = rw (same c, map_same copy_condition same cs) refl

module _ {M : Type 0} where
  map_of-distinct :
      (cell : Option (Cell M)) (x : Dict String) → map_of cell ≡ some x → distinct x ≡ true
  map_of-distinct cell x e = ground arith

  pub view_text-IsLocal : IsLocal {M = M} view_text
  view_text-IsLocal = view_reference-IsLocal text_of refl _ _ (λ m m' x v agree e. e)

  pub copy_text-IsDeep : IsDeep {M = M} view_text copy_text
  copy_text-IsDeep =
      unless_nil-IsDeep text_of refl (λ m s. some (some s)) none (λ s. pure (text_cell s))
        (λ m cell x v f e. (omega arith, λ a l h. refl, (x, refl, λ m2 agree. e)))

  pub view_map-IsLocal : IsLocal {M = M} view_map
  view_map-IsLocal = view_reference-IsLocal map_of refl _ _ (λ m m' x v agree e. e)

  pub copy_map-IsDeep : IsDeep {M = M} view_map copy_map
  copy_map-IsDeep =
      unless_nil-IsDeep map_of refl (λ m d. some d) [] (λ d. pure (map_cell (fill [] d)))
        (λ m cell x v f e. (
          omega arith,
          λ a l h. refl,
          (x, let d = map_of-distinct cell x f in rw (fill-distinct x d, d) refl, λ m2 agree. e),
        ))

  pub view_conditions-IsLocal : IsLocal {M = M} view_conditions
  view_conditions-IsLocal = view_reference-IsLocal conditions_of refl _ _ (λ m m' x v agree e. e)

  -- The slices, where the copy of an element is known to be deep.
  module _ (copy_condition : Condition → Condition)
      (same : (c : Condition) → copy_condition c ≡ c) where
    pub copy_conditions-IsDeep : IsDeep {M = M} view_conditions (copy_conditions copy_condition)
    copy_conditions-IsDeep =
        unless_nil-IsDeep conditions_of refl (λ m cs. some cs) []
          (λ cs. pure (conditions_cell (map copy_condition cs)))
          (λ m cell x v f e. (
            omega arith,
            λ a l h. refl,
            (x, ap some (map_same copy_condition same x), λ m2 agree. e),
          ))

  module _ {S V : Type 0} (of : Option (Cell M) → Option (List S)) (cell : List S → Cell M)
      (reads : of none ≡ none) (holds : (ss : List S) → of (some (cell ss)) ≡ some ss)
      (view : Memory M → S → Option V) (copy : S → Copy M S) (local : IsLocal view) where
    pub view_items-IsLocal : IsLocal (view_items of view)
    view_items-IsLocal =
        view_reference-IsLocal of reads (view_each view) [] (view_each-IsLocal view local)

    items_lem :
        (m : Memory M) (v : List V) (o : Option (List S × Memory M))
        → Copied (view_each view) m v o
        → CopiedCell of reads (view_each view) m v (and_then o (λ ss. pure (cell ss)))
    items_lem m v none p = elim p [ ]
    items_lem m v (some (ss, m')) (grows, kept, stands) = (grows, kept, (ss, holds ss, stands))

    pub copy_items-IsDeep : IsDeep view copy → IsDeep (view_items of view) (copy_items of cell copy)
    copy_items-IsDeep d = unless_nil-IsDeep of reads (view_each view) [] _ (λ m c x v f e.
        items_lem m v (copy_each copy x m) (copy_each-IsDeep view copy local d m x v e))
