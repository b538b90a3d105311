-- ===== src/Api/DeepCopy/Deep/Struct.antt =====
-- api/v1alpha1/zz_generated.deepcopy.go: copies of the parts of a struct, and of the elements of a slice.
use minio_bucket_controller.Base.{◌≡◌, refl, [], ◌∷◌, Option, none, some, arith}
use minio_bucket_controller.Api.DeepCopy.Memory.{Memory, Copy, pure, and_then, ◌>>=◌}
use minio_bucket_controller.Api.DeepCopy.View.{view_each}
use minio_bucket_controller.Api.DeepCopy.Copies.{copy_each}
use minio_bucket_controller.Api.DeepCopy.Deep.{
  bind-some, Agree, Extends-trans, Extends-mono, Ends, IsLocal, Copied, IsDeep,
}

module _ {M P T : Type 0} where
  -- In sequence: what the first copy makes is kept by the rest.
  pub and_then-Ends :
      (m : Memory M) (Made : P → Memory M → Type 0) (Wanted : T → Memory M → Type 0)
      (k : P → Copy M T) (o : Option (P × Memory M))
      → Ends m Made o
      → ((x : P) (m' : Memory M)
          → Agree 0 m.next m m'
          → Ends m' (λ t m2. Made x m2 → Wanted t m2) (k x m'))
      → Ends m Wanted (and_then o k)
  and_then-Ends m Made Wanted k none e f = elim e [ ]
  and_then-Ends m Made Wanted k (some (x, m')) e f = joined (k x m') (f x m' e.1)
    where
      joined :
          (o : Option (T × Memory M))
          → Ends m' (λ t m2. Made x m2 → Wanted t m2) o
          → Ends m Wanted o
      joined none g = g
      joined (some (t, m'')) g =
          Extends-mono m m'' (λ m2. Made x m2 × (Made x m2 → Wanted t m2)) (Wanted t)
            (λ m2 (made, wanted). wanted made)
            (Extends-trans m m' m'' (Made x) (λ m2. Made x m2 → Wanted t m2) e g)

module _ {M T : Type 0} where
  -- At the end.
  pub pure-Ends :
      (m : Memory M) (Wanted : T → Memory M → Type 0) (t : T)
      → ((m2 : Memory M) → Wanted t m2)
      → Ends m Wanted (pure t m)
  pure-Ends m Wanted t w = (omega arith, λ a l h. refl, λ m2 agree. w m2)

-- A struct of three parts, which are copied one after the other.
module _ {M P Q R T A B C V : Type 0} (vp : Memory M → P → Option A) (vq : Memory M → Q → Option B)
    (vr : Memory M → R → Option C) (vt : Memory M → T → Option V) where
  pub three-Copied :
      (cp : P → Copy M P) (cq : Q → Copy M Q) (cr : R → Copy M R) (t : P → Q → R → T) (m : Memory M)
      (p : P) (q : Q) (r : R) (a : A) (b : B) (c : C) (v : V)
      → IsLocal vq
      → IsLocal vr
      → IsDeep vp cp
      → ((m : Memory M) → vq m q ≡ some b → Copied vq m b (cq q m))
      → ((m : Memory M) → vr m r ≡ some c → Copied vr m c (cr r m))
      → vp m p ≡ some a
      → vq m q ≡ some b
      → vr m r ≡ some c
      → ((m : Memory M) (p : P) (q : Q) (r : R)
          → vp m p ≡ some a
          → vq m q ≡ some b
          → vr m r ≡ some c
          → vt m (t p q r) ≡ some v)
      → Copied vt m v ((do p' ← cp p; q' ← cq q; r' ← cr r; pure (t p' q' r')) m)
  three-Copied cp cq cr t m p q r a b c v lq lr dp dq dr e f g build =
      let ends = λ (s : T) (m2 : Memory M). vt m2 s ≡ some v in
      let with_p = λ (p : P) (s : T) (m2 : Memory M). vp m2 p ≡ some a → ends s m2 in
      let with_q = λ (p : P) (q : Q) (s : T) (m2 : Memory M). vq m2 q ≡ some b → with_p p s m2 in
      let with_r =
        λ (p : P) (q : Q) (r : R) (s : T) (m2 : Memory M). vr m2 r ≡ some c → with_q p q s m2 in
      and_then-Ends m (λ p m2. vp m2 p ≡ some a) ends
        (λ p. do q' ← cq q; r' ← cr r; pure (t p q' r')) (cp p m) (dp m p a e)
        (λ p m1 k1.
          and_then-Ends m1 (λ q m2. vq m2 q ≡ some b) (with_p p)
            (λ q. do r' ← cr r; pure (t p q r')) (cq q m1) (dq m1 (lq m m1 q b k1 f))
            (λ q m2 k2.
              and_then-Ends m2 (λ r m2. vr m2 r ≡ some c) (with_q p q) (λ r. pure (t p q r))
                (cr r m2) (dr m2 (lr m1 m2 r c k2 (lr m m1 r c k1 g)))
                (λ r m3 k3.
                  pure-Ends m3 (with_r p q r) (t p q r) (λ m z y x. build m p q r x y z))))

-- A struct of two parts, and of one.
abbrev nothing : {M : Type 0} → Memory M → Unit {0} → Option (Unit {0})
nothing m u = some u

module _ {M P Q T A B V : Type 0} (vp : Memory M → P → Option A) (vq : Memory M → Q → Option B)
    (vt : Memory M → T → Option V) where
  pub two-Copied :
      (cp : P → Copy M P) (cq : Q → Copy M Q) (t : P → Q → T) (m : Memory M) (p : P) (q : Q) (a : A)
      (b : B) (v : V)
      → IsLocal vq
      → IsDeep vp cp
      → ((m : Memory M) → vq m q ≡ some b → Copied vq m b (cq q m))
      → vp m p ≡ some a
      → vq m q ≡ some b
      → ((m : Memory M) (p : P) (q : Q) → vp m p ≡ some a → vq m q ≡ some b → vt m (t p q) ≡ some v)
      → Copied vt m v ((do p' ← cp p; q' ← cq q; pure (t p' q')) m)
  two-Copied cp cq t m p q a b v lq dp dq e f build =
      three-Copied vp vq nothing vt cp cq (λ u. pure u) (λ p q u. t p q) m p q tt a b tt v lq
        (λ m m' s v agree e. e) dp dq (λ m e. (omega arith, λ a l h. refl, λ m2 agree. e)) e f refl
        (λ m p q u x y z. build m p q x y)

module _ {M P T A V : Type 0} (vp : Memory M → P → Option A) (vt : Memory M → T → Option V) where
  pub one-Copied :
      (cp : P → Copy M P) (t : P → T) (m : Memory M) (p : P) (a : A) (v : V)
      → IsDeep vp cp
      → vp m p ≡ some a
      → ((m : Memory M) (p : P) → vp m p ≡ some a → vt m (t p) ≡ some v)
      → Copied vt m v ((do p' ← cp p; pure (t p')) m)
  one-Copied cp t m p a v dp e build =
      two-Copied vp nothing vt cp (λ u. pure u) (λ p u. t p) m p tt a tt v (λ m m' s v agree e. e)
        dp (λ m e. (omega arith, λ a l h. refl, λ m2 agree. e)) e refl (λ m p u x y. build m p x)

-- The elements of a slice.
module _ {M S V : Type 0} (view : Memory M → S → Option V) where
  pub view_each-IsLocal : IsLocal view → IsLocal (view_each view)
  view_each-IsLocal p m m' [] v agree e = e
  view_each-IsLocal p m m' (s ∷ ss) v agree e =
      let (w, f, g) = bind-some (view m s) _ v e in
      let (ws, f', g') = bind-some (view_each view m ss) _ v g in
      rw (p m m' s w agree f, view_each-IsLocal p m m' ss ws agree f') g'

  pub copy_each-IsDeep :
      (copy : S → Copy M S)
      → IsLocal view
      → IsDeep view copy
      → IsDeep (view_each view) (copy_each copy)
  copy_each-IsDeep copy l d m [] v e = (omega arith, λ a l h. refl, λ m2 agree. e)
  copy_each-IsDeep copy l d m (s ∷ ss) v e =
      let (w, f, g) = bind-some (view m s) _ v e in
      let (ws, f', g') = bind-some (view_each view m ss) _ v g in
      two-Copied view (view_each view) (view_each view) copy (copy_each copy) (λ x xs. x ∷ xs) m s
        ss w ws v (view_each-IsLocal l) d (λ m e. copy_each-IsDeep copy l d m ss ws e) f f'
        (λ m x xs p q. rw (p, q) g')
