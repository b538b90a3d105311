-- ===== src/Program/Run.antt =====
-- Running a program in an environment, and what a contract says of the run.
use minio_bucket_controller.Base.{◌≡◌, ap, [], ◌∷◌, Option, none, some}
use mathlib.Core.Option.{some-injective}
use minio_bucket_controller.Program.{Call, Reply, Program, ret, halt, call, ◌>>=◌}
use minio_bucket_controller.Program.Contract.{History, Contract, Meets}

-- The cluster, MinIO and all that acts on them, as one state that answers calls.
pub record Environment : Type 1 where
  pub State : Type 0
  pub answer : (c : Call) → State → Reply c × State

module _ (E : Environment) where
  -- The value returned, if the program does not halt, with the history and the state at the end.
  pub record Run (A : Type 0) : Type 0 where
    pub value : Option A
    pub history : History
    pub state : E.State

  unfoldable pub run : {A : Type 0} → Program A → History → E.State → Run A
  run (ret a) h s = record { value = some a; history = h; state = s }
  run halt h s = record { value = none; history = h; state = s }
  run (call c k) h s = let (r, s') = E.answer c s in run (k r) ((c, r) ∷ h) s'

-- Every call of a history was allowed after the calls before it.
abbrev pub Allowed : {A : Type 0} → Contract A → History → Type 0
Allowed C [] = Unit
Allowed C ((c, r) ∷ h) = C.may_call h c × Allowed C h

-- How the program ended was allowed too.
abbrev pub Ended : {A : Type 0} → Contract A → History → Option A → Type 0
Ended C h none = C.may_halt h
Ended C h (some a) = C.may_return h a

-- A program that meets a contract keeps it in every environment, from every state.
pub Meets-run :
    (E : Environment) {A : Type 0} (C : Contract A) (m : Program A) (h : History) (s : E.State)
    → Meets C h m
    → Allowed C h
    → Allowed C (run E m h s).history × Ended C (run E m h s).history (run E m h s).value
unfolding run
Meets-run E C (ret a) h s p q = (q, p)
Meets-run E C halt h s p q = (q, p)
Meets-run E C (call c k) h s p q =
    let (r, s') = E.answer c s in Meets-run E C (k r) ((c, r) ∷ h) s' (p.1 r) (p.0, q)

-- A program in sequence runs the second part from where the first part ended.
pub run-bind :
    (E : Environment) {A B : Type 0} (m : Program A) (f : A → Program B) (h : History) (s : E.State)
    (a : A)
    → (run E m h s).value ≡ some a
    → run E (m >>= f) h s ≡ run E (f a) (run E m h s).history (run E m h s).state
unfolding run
run-bind E (ret a) f h s b e = ap (λ x. run E (f x) h s) (some-injective a b e)
run-bind E halt f h s b e = cc
run-bind E (call c k) f h s b e =
    let (r, s') = E.answer c s in run-bind E (k r) f ((c, r) ∷ h) s' b e
