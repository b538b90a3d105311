-- ===== src/Program/Contract.antt =====
-- What a program promises whatever it is replied: which calls it makes, after which history, and
-- what it returns. A history is the calls made and their replies, the last one first.
use minio_bucket_controller.Base.{◌≡◌, refl, Bool, true, false, List, ◌∷◌, if◌then◌else◌}
use minio_bucket_controller.Program.{Call, Reply, Program, ret, halt, call, ◌>>=◌}

abbrev pub History : Type 0
History = List ((c : Call) × Reply c)

pub record Contract (A : Type 0) : Type 1 where
  pub may_call : History → Call → Type 0
  pub may_return : History → A → Type 0
  pub may_halt : History → Type 0

-- For every reply of every call: each call is allowed after the calls before it, and so is the
-- value that is returned in the end, or the halt.
abbrev pub Meets : {A : Type 0} → Contract A → History → Program A → Type 0
Meets C h (ret a) = C.may_return h a
Meets C h halt = C.may_halt h
Meets C h (call c k) = C.may_call h c × ((r : Reply c) → Meets C ((c, r) ∷ h) (k r))

module _ {A B : Type 0} where
  -- The contract of `m` in `m >>= f`: it returns where the rest meets the contract of the whole.
  abbrev pub before : Contract B → (A → Program B) → Contract A
  before C f = record {
    may_call = C.may_call;
    may_return = λ h a. Meets C h (f a);
    may_halt = C.may_halt;
  }

  pub Meets-bind :
      (C : Contract B) (h : History) (m : Program A) (f : A → Program B)
      → Meets (before C f) h m
      → Meets C h (m >>= f)
  Meets-bind C h (ret a) f p = p
  Meets-bind C h halt f p = p
  Meets-bind C h (call c k) f p = (p.0, λ r. Meets-bind C ((c, r) ∷ h) (k r) f (p.1 r))

module _ {A : Type 0} where
  -- A contract may be weakened.
  pub Meets-mono :
      (C D : Contract A) (h : History) (m : Program A)
      → ((h : History) (c : Call) → C.may_call h c → D.may_call h c)
      → ((h : History) (a : A) → C.may_return h a → D.may_return h a)
      → ((h : History) → C.may_halt h → D.may_halt h)
      → Meets C h m
      → Meets D h m
  Meets-mono C D h (ret a) calls returns halts p = returns h a p
  Meets-mono C D h halt calls returns halts p = halts h p
  Meets-mono C D h (call c k) calls returns halts p =
      (calls h c p.0, λ r. Meets-mono C D ((c, r) ∷ h) (k r) calls returns halts (p.1 r))

module _ {A B : Type 0} where
  -- The contract with other returns.
  abbrev pub returning : Contract B → (History → A → Type 0) → Contract A
  returning C P = record { may_call = C.may_call; may_return = P; may_halt = C.may_halt }

  -- In sequence: `m` returns where `P` holds, and from there the rest meets the contract.
  pub Meets-seq :
      (C : Contract B) (P : History → A → Type 0) (h : History) (m : Program A) (f : A → Program B)
      → Meets (returning C P) h m
      → ((h : History) (a : A) → P h a → Meets C h (f a))
      → Meets C h (m >>= f)
  Meets-seq C P h (ret a) f p q = q h a p
  Meets-seq C P h halt f p q = p
  Meets-seq C P h (call c k) f p q = (p.0, λ r. Meets-seq C P ((c, r) ∷ h) (k r) f (p.1 r) q)

module _ {A : Type 0} where
  -- A test: each branch meets the contract where it is taken.
  pub Meets-if :
      (C : Contract A) (h : History) (b : Bool) (m n : Program A)
      → (b ≡ true → Meets C h m)
      → (b ≡ false → Meets C h n)
      → Meets C h (if b then m else n)
  Meets-if C h true m n p q = p refl
  Meets-if C h false m n p q = q refl
