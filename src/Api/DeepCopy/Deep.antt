-- ===== src/Api/DeepCopy/Deep.antt =====
-- api/v1alpha1/zz_generated.deepcopy.go: what makes a copy a deep one, and how deep copies compose.
pub mod Reference
pub mod Struct
use minio_bucket_controller.Base.{ℕ, ◌≤◌, ◌<◌, ◌≡◌, refl, ◌∙◌, [], ◌∷◌, Option, none, some, arith}
use mathlib.Core.Path.{subst}
use mathlib.Core.Option.{none-ne-some}
use minio_bucket_controller.Api.DeepCopy.Memory.{
  Cell, Memory, load, Copy, pure, and_then, extended, ◌>>=◌,
}
use minio_bucket_controller.Api.DeepCopy.View.{chain, view_reference, view_each}
use minio_bucket_controller.Api.DeepCopy.Copies.{unless_nil, copy_each}

-- A chain that returns, in parts.
pub bind-some :
    {A B : Type 0} (o : Option A) (f : A → Option B) (v : B)
    → chain o f ≡ some v
    → (x : A) × (o ≡ some x) × (f x ≡ some v)
bind-some none f v e = absurd (none-ne-some v e)
bind-some (some x) f v e = (x, refl, e)

module _ {M : Type 0} where
  -- Two memories have the same at the addresses of a range.
  abbrev pub Agree : ℕ → ℕ → Memory M → Memory M → Type 0
  Agree lo hi m m' = (a : ℕ) → lo ≤ a → a < hi → load m' a ≡ load m a

  pub Agree-trans :
      (lo hi : ℕ) (m1 m2 m3 : Memory M) → Agree lo hi m1 m2 → Agree lo hi m2 m3 → Agree lo hi m1 m3
  Agree-trans lo hi m1 m2 m3 p q a l h = q a l h ∙ p a l h

  pub Agree-within :
      (lo hi lo' hi' : ℕ) (m m' : Memory M)
      → lo' ≤ lo
      → hi ≤ hi'
      → Agree lo' hi' m m'
      → Agree lo hi m m'
  Agree-within lo hi lo' hi' m m' l h p a la ah = p a (omega arith) (omega arith)

  -- From one memory to the next: addresses in use are left as they are, and something holds whatever
  -- the addresses are that are not new.
  abbrev pub Extends : Memory M → Memory M → (Memory M → Type 0) → Type 0
  Extends m m' P =
      (m.next ≤ m'.next)
      × Agree 0 m.next m m'
      × ((m2 : Memory M) → Agree m.next m'.next m' m2 → P m2)

  pub Extends-trans :
      (m m' m'' : Memory M) (P Q : Memory M → Type 0)
      → Extends m m' P
      → Extends m' m'' Q
      → Extends m m'' (λ m2. P m2 × Q m2)
  Extends-trans m m' m'' P Q (grows, kept, holds) (grows', kept', holds') = (
    omega arith,
    Agree-trans 0 m.next m m' m'' kept
        (Agree-within 0 m.next 0 m'.next m' m'' (omega arith) grows kept'),
    λ m2 agree. (
      holds m2 (λ a l h. agree a l (omega arith) ∙ kept' a (omega arith) h),
      holds' m2 (λ a l h. agree a (omega arith) h),
    ),
  )

  pub Extends-mono :
      (m m' : Memory M) (P Q : Memory M → Type 0)
      → ((m2 : Memory M) → P m2 → Q m2)
      → Extends m m' P
      → Extends m m' Q
  Extends-mono m m' P Q f (grows, kept, holds) = (grows, kept, λ m2 agree. f m2 (holds m2 agree))

  -- A program that starts in this memory returns, and from there to its end something holds.
  abbrev pub Ends :
      {T : Type 0} → Memory M → (T → Memory M → Type 0) → Option (T × Memory M) → Type 0
  Ends m P none = ⊥
  Ends m P (some (t, m')) = Extends m m' (P t)

  module _ {S V : Type 0} where
    -- What a struct stands for depends only on the addresses in use.
    abbrev pub IsLocal : (Memory M → S → Option V) → Type 0
    IsLocal view =
        (m m' : Memory M) (s : S) (v : V)
        → Agree 0 m.next m m'
        → view m s ≡ some v
        → view m' s ≡ some v

    -- What is returned, where a struct that stands for `v` is copied in `m`: addresses in use are left
    -- as they are, and the copy stands for `v`, whatever the addresses are that were not new.
    abbrev pub Copied : (Memory M → S → Option V) → Memory M → V → Option (S × Memory M) → Type 0
    Copied view m v = Ends m (λ s m2. view m2 s ≡ some v)

    abbrev pub IsDeep : (Memory M → S → Option V) → (S → Copy M S) → Type 0
    IsDeep view copy =
        (m : Memory M) (s : S) (v : V) → view m s ≡ some v → Copied view m v (copy s m)
