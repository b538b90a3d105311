-- ===== src/Program/Relies.antt =====
-- What a program achieves where each reply is one that helps it, and what that says of a run.
use minio_bucket_controller.Base.{◌≡◌, refl, sym, Bool, true, false, [], ◌∷◌, Option, none, some}
use minio_bucket_controller.Errors.{Result, ok, err}
use mathlib.Core.Path.{subst}
use minio_bucket_controller.Program.{Program, Call, Reply, ret, halt, call}
use minio_bucket_controller.Program.Contract.{History, Contract, Meets}
use minio_bucket_controller.Program.Run.{Environment, run, Ended, Meets-run}

abbrev pub is_ok {ℓ} : {A : Type ℓ} → Result A → Bool
is_ok (ok a) = true
is_ok (err e) = false

pub is_ok-ok : {A : Type 0} (r : Result A) → is_ok r ≡ true → (a : A) × (r ≡ ok a)
is_ok-ok (ok a) e = (a, refl)
is_ok-ok (err e') e = cc

module _ (Helpful : (c : Call) → Reply c → Type 0) where
  abbrev pub AllHelpful : History → Type 0
  AllHelpful [] = Unit
  AllHelpful ((c, r) ∷ h) = Helpful c r × AllHelpful h

  module _ {A : Type 0} where
    -- What holds at the end where every reply was helpful.
    abbrev pub relies : (History → A → Type 0) → Contract A
    relies P = record {
      may_call = λ h c. Unit;
      may_return = λ h a. AllHelpful h → P h a;
      may_halt = λ h. ¬ AllHelpful h;
    }

    pub Meets-given :
        (P : History → A → Type 0) (h : History) (m : Program A)
        → (AllHelpful h → Meets (relies P) h m)
        → Meets (relies P) h m
    Meets-given P h (ret a) q = λ helpful. q helpful helpful
    Meets-given P h halt q = λ helpful. q helpful helpful
    Meets-given P h (call c k) q =
        (tt, λ r. Meets-given P ((c, r) ∷ h) (k r) (λ helpful. (q helpful.1).1 r))

    -- A call to which only one reply is helpful.
    pub Meets-replied :
        (P : History → A → Type 0) (h : History) (c : Call) (k : Reply c → Program A) (r : Reply c)
        → ((r' : Reply c) → Helpful c r' → r' ≡ r)
        → Meets (relies P) ((c, r) ∷ h) (k r)
        → Meets (relies P) h (call c k)
    Meets-replied P h c k r same m = (
      tt,
      λ r'.
          Meets-given P ((c, r') ∷ h) (k r')
            λ helpful. subst (λ x. Meets (relies P) ((c, x) ∷ h) (k x)) (sym (same r' helpful.0)) m,
    )

  module _ (E : Environment) where
    -- Every answer of the environment is helpful.
    abbrev pub Helps : Type 0
    Helps = (c : Call) (s : E.State) → Helpful c (E.answer c s).0

    run-AllHelpful :
        {A : Type 0} (m : Program A) (h : History) (s : E.State)
        → Helps
        → AllHelpful h
        → AllHelpful (run E m h s).history
    unfolding run
    run-AllHelpful (ret a) h s helps q = q
    run-AllHelpful halt h s helps q = q
    run-AllHelpful (call c k) h s helps q =
        let (r, s') = E.answer c s in run-AllHelpful (k r) ((c, r) ∷ h) s' helps (helps c s, q)

    Ended-relies :
        {A : Type 0} (P : History → A → Type 0) (h : History) (v : Option A)
        → Ended (relies P) h v
        → AllHelpful h
        → (a : A) × (v ≡ some a) × P h a
    Ended-relies P h none ended helpful = absurd (ended helpful)
    Ended-relies P h (some a) ended helpful = (a, refl, ended helpful)

    -- The program returns, and what it relies on the replies for holds.
    pub Meets-helped :
        {A : Type 0} (P : History → A → Type 0) (m : Program A) (s : E.State)
        → Meets (relies P) [] m
        → Helps
        → (a : A) × ((run E m [] s).value ≡ some a) × P (run E m [] s).history a
    Meets-helped P m s meets helps =
        Ended-relies P _ _ (Meets-run E (relies P) m [] s meets tt).1
          (run-AllHelpful m [] s helps tt)
