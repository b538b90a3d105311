-- ===== src/Api/DeepCopy/Deep/Reference.antt =====
-- api/v1alpha1/zz_generated.deepcopy.go: copies of what a pointer, a map or a slice refers to.
use minio_bucket_controller.Base.{ℕ, ◌≤◌, ◌<◌, ◌≡◌, refl, ◌∙◌, Option, none, some, arith}
use mathlib.Core.Path.{subst}
use minio_bucket_controller.Api.DeepCopy.Memory.{Cell, Memory, load, Copy, extended}
use minio_bucket_controller.Api.DeepCopy.View.{view_reference}
use minio_bucket_controller.Api.DeepCopy.Copies.{unless_nil}
use minio_bucket_controller.Api.DeepCopy.Deep.{
  bind-some, Agree, Agree-trans, Agree-within, IsLocal, Copied, IsDeep,
}

module _ {M : Type 0} where
  load-extended : (c : Cell M) (m : Memory M) → load (extended c m) m.next ≡ some c
  load-extended c m = ground arith

  Agree-extended : (c : Cell M) (m : Memory M) → Agree 0 m.next m (extended c m)
  Agree-extended c m a l h = ground arith

  module _ {A : Type 0} (of : Option (Cell M) → Option A) (reads : of none ≡ none) where
    -- What can be read is in use.
    in_use : (m : Memory M) (a : ℕ) (x : A) → of (load m a) ≡ some x → a < m.next
    in_use m a x e = ground arith

    pub view_reference-IsLocal :
        {V : Type 0} (inner : Memory M → A → Option V) (nil : V)
        → IsLocal inner
        → IsLocal (view_reference of inner nil)
    view_reference-IsLocal inner nil p m m' none v agree e = e
    view_reference-IsLocal inner nil p m m' (some a) v agree e =
        let (x, f, g) = bind-some (of (load m a)) (inner m) v e in
        rw (agree a (omega arith) (in_use m a x f), f) (p m m' x v agree g)

    -- What is put into the new cell stands for the same.
    abbrev pub CopiedCell :
        {V : Type 0}
        → (Memory M → A → Option V)
        → Memory M
        → V
        → Option (Cell M × Memory M)
        → Type 0
    CopiedCell inner m v none = ⊥
    CopiedCell inner m v (some (c, m')) =
        (m.next ≤ m'.next)
        × Agree 0 m.next m m'
        × ((x : A) × (of (some c) ≡ some x)
            × ((m2 : Memory M) → Agree m.next m'.next m' m2 → inner m2 x ≡ some v))

    -- A cell that was copied gets an address.
    abbrev stored : Option (Cell M × Memory M) → Option (Option ℕ × Memory M)
    stored none = none
    stored (some (c, m')) = some (some m'.next, extended c m')

    unless_nil_lem :
        (copy : A → Copy M (Cell M)) (m : Memory M) (a : ℕ) (x : A)
        → of (load m a) ≡ some x
        → stored (copy x m) ≡ unless_nil of copy (some a) m
    unless_nil_lem copy m a x e = ground arith

    store_lem :
        {V : Type 0} (inner : Memory M → A → Option V) (nil : V) (m : Memory M) (v : V)
        (o : Option (Cell M × Memory M))
        → CopiedCell inner m v o
        → Copied (view_reference of inner nil) m v (stored o)
    store_lem inner nil m v none p = elim p [ ]
    store_lem inner nil m v (some (c, m')) (grows, kept, (x, holds, stands)) = (
      omega arith,
      Agree-trans 0 m.next m m' (extended c m') kept (
          Agree-within 0 m.next 0 m'.next m' (extended c m') (omega arith) grows
            (Agree-extended c m')),
      λ m2 agree.
          let here = agree m'.next grows (omega arith) ∙ load-extended c m' in
          let before =
            Agree-trans m.next m'.next m' (extended c m') m2
              (Agree-within m.next m'.next 0 m'.next m' (extended c m') (omega arith) (omega arith)
                (Agree-extended c m'))
              (λ a l h. agree a l (omega arith)) in
          rw (here, holds) (stands m2 before),
    )

    -- Where the contents of a cell are copied, so is what a reference to it stands for.
    pub unless_nil-IsDeep :
        {V : Type 0} (inner : Memory M → A → Option V) (nil : V) (copy : A → Copy M (Cell M))
        → ((m : Memory M) (cell : Option (Cell M)) (x : A) (v : V)
            → of cell ≡ some x
            → inner m x ≡ some v
            → CopiedCell inner m v (copy x m))
        → IsDeep (view_reference of inner nil) (unless_nil of copy)
    unless_nil-IsDeep inner nil copy p m none v e = (omega arith, λ a l h. refl, λ m2 agree. e)
    unless_nil-IsDeep inner nil copy p m (some a) v e =
        let (x, f, g) = bind-some (of (load m a)) (inner m) v e in
        subst (Copied (view_reference of inner nil) m v) (unless_nil_lem copy m a x f)
          (store_lem inner nil m v (copy x m) (p m (load m a) x v f g))
