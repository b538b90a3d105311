-- ===== src/Api/DeepCopy/Separate.antt =====
-- api/v1alpha1/zz_generated.deepcopy.go: a copy has the value of the original and no memory in
-- common with it.
use minio_bucket_controller.Base.{ℕ, ◌≤◌, ◌<◌, ◌≡◌, refl, ◌⊎◌, inl, inr, Option, none, some, arith}
use mathlib.Core.Path.{subst}
use minio_bucket_controller.Api.DeepCopy.Memory.{Cell, Memory, write, Copy, pure, and_then}
use minio_bucket_controller.Api.DeepCopy.Methods.{deep_copy}
use minio_bucket_controller.Api.DeepCopy.Deep.{Agree, Agree-trans, Extends, Copied, IsLocal, IsDeep}

Agree-write :
    {M : Type 0} (m : Memory M) (a lo hi : ℕ) (c : Cell M)
    → (a < lo) ⊎ (hi ≤ a)
    → Agree lo hi m (write m a c)
Agree-write m a lo hi c p b l h = ground arith

module _ {M S V : Type 0} (view : Memory M → S → Option V) (into : S → Copy M S) where
  -- What `DeepCopy` returns for a struct that stands for a value.
  abbrev Returned : Memory M → V → Option (Option S × Memory M) → Type 0
  Returned m v (some (some s, m')) = Extends m m' (λ m2. view m2 s ≡ some v)
  Returned m v _ = ⊥

  Copied-Returned :
      (m : Memory M) (v : V) (o : Option (S × Memory M))
      → Copied view m v o
      → Returned m v (and_then o (λ out. pure (some out)))
  Copied-Returned m v none p = p
  Copied-Returned m v (some (s, m')) p = p

  deep_copy-Returned :
      (m : Memory M) (s : S) (v : V)
      → IsDeep view into
      → view m s ≡ some v
      → Returned m v (deep_copy into (some s) m)
  deep_copy-Returned m s v deep e = Copied-Returned m v (into s m) (deep m s v e)

  -- The parts of what is returned.
  Returned-some :
      (m : Memory M) (v : V) (o : Option (Option S × Memory M))
      → Returned m v o
      → (s : S) × (m' : Memory M) × (o ≡ some (some s, m'))
        × Extends m m' (λ m2. view m2 s ≡ some v)
  Returned-some m v none p = elim p [ ]
  Returned-some m v (some (none, m')) p = elim p [ ]
  Returned-some m v (some (some s, m')) p = (s, m', refl, p)

  pub deep_copy-view :
      (m : Memory M) (s : S) (v : V)
      → IsLocal view
      → IsDeep view into
      → view m s ≡ some v
      → (s' : S) × (m' : Memory M) × (deep_copy into (some s) m ≡ some (some s', m'))
        × (view m' s' ≡ some v)
        × (view m' s ≡ some v)
  deep_copy-view m s v local deep e =
      let (s', m', f, (grows, kept, stands)) =
        Returned-some m v (deep_copy into (some s) m) (deep_copy-Returned m s v deep e) in
      (s', m', f, stands m' (λ a l h. refl), local m m' s v kept e)

  -- Two structs in a memory, of which one is the other's copy.
  IsCopy_lem :
      (m m' : Memory M) (s s' : S) (v : V)
      → IsDeep view into
      → view m s ≡ some v
      → deep_copy into (some s) m ≡ some (some s', m')
      → Extends m m' (λ m2. view m2 s' ≡ some v)
  IsCopy_lem m m' s s' v deep e f = subst (Returned m v) f (deep_copy-Returned m s v deep e)

  pub deep_copy-original :
      (m m' : Memory M) (s s' : S) (v : V) (a : ℕ) (c : Cell M)
      → IsLocal view
      → IsDeep view into
      → view m s ≡ some v
      → deep_copy into (some s) m ≡ some (some s', m')
      → m.next ≤ a
      → view (write m' a c) s ≡ some v
  deep_copy-original m m' s s' v a c local deep e f new =
      let (grows, kept, stands) = IsCopy_lem m m' s s' v deep e f in
      local m (write m' a c) s v
        (Agree-trans 0 m.next m m' (write m' a c) kept (Agree-write m' a 0 m.next c (inr new))) e

  pub deep_copy-copy :
      (m m' : Memory M) (s s' : S) (v : V) (a : ℕ) (c : Cell M)
      → IsDeep view into
      → view m s ≡ some v
      → deep_copy into (some s) m ≡ some (some s', m')
      → a < m.next
      → view (write m' a c) s' ≡ some v
  deep_copy-copy m m' s s' v a c deep e f old =
      let (grows, kept, stands) = IsCopy_lem m m' s s' v deep e f in
      stands (write m' a c) (Agree-write m' a m.next m'.next c (inl old))
