-- ===== src/Controllers/Account/Collect/Laws.antt =====
-- controllers/bucketserviceaccount_controller.go: `gc`, and the age of conditions.
use minio_bucket_controller.Base.{
  ℕ, ◌+◌, ◌≤◌, ltb, ◌≡◌, refl, sym, ap, ◌∙◌, Bool, true, false, List, [], ◌∷◌, ◌⊎◌, inl, inr,
  Option, none, some, arith,
}
use minio_bucket_controller.Api.Meta.{Condition}
use minio_bucket_controller.Api.Account.{BucketServiceAccount}
use minio_bucket_controller.Errors.{ok}
use minio_bucket_controller.Api.Bucket.{bucket_condition_deleting}
use minio_bucket_controller.Libraries.{Libraries}
use minio_bucket_controller.Program.{Call, Reply, delete_account, update_account_status, now}
use minio_bucket_controller.Program.Contract.{
  History, Contract, Meets, Meets-mono, Meets-seq, Meets-if,
}
use minio_bucket_controller.Controllers.Account.Collect.{
  is_waiting, check_condition, scan, mark_and_drop, collect_account,
}

-- The clock read at least `t` in the run.
abbrev pub ClockPast : ℕ → History → Type 0
ClockPast t [] = ⊥
ClockPast t ((now, t') ∷ h) = (t ≤ t') ⊎ ClockPast t h
ClockPast t ((c, r) ∷ h) = ClockPast t h

-- Every condition for which the collection waits is older than `ttl`.
abbrev pub AllExpired : ℕ → List Condition → History → Type 0
AllExpired ttl [] h = Unit
AllExpired ttl (c ∷ cs) h =
    ((is_waiting c ≡ false) ⊎ ClockPast (c.last_transition_time + ttl) h) × AllExpired ttl cs h

-- Whether the last condition is one for which the collection waits.
abbrev pub last_waiting : List Condition → Bool → Bool
last_waiting [] found = found
last_waiting (c ∷ cs) found = last_waiting cs (is_waiting c)

-- What the account must show before the collection writes to it.
abbrev pub Collectable : ℕ → List Condition → History → Type 0
Collectable ttl cs h = (last_waiting cs false ≡ true) × AllExpired ttl cs h

-- The server replied this account after a status under the metadata of `a` was written.
abbrev pub Rewritten : BucketServiceAccount → BucketServiceAccount → History → Type 0
Rewritten a a' [] = ⊥
Rewritten a a' ((update_account_status a1, ok a2) ∷ h) =
    ((a1.metadata ≡ a.metadata) × (a' ≡ a2)) ⊎ Rewritten a a' h
Rewritten a a' ((c, r) ∷ h) = Rewritten a a' h

-- The account itself, or as the server replied it after its status was written.
abbrev pub IsTarget : BucketServiceAccount → BucketServiceAccount → History → Type 0
IsTarget a a' h = (a' ≡ a) ⊎ Rewritten a a' h

abbrev pub MayCollect : ℕ → BucketServiceAccount → History → Call → Type 0
MayCollect ttl a h (delete_account a') = IsTarget a a' h × Collectable ttl a.status.conditions h
MayCollect ttl a h (update_account_status a') =
    (a'.metadata ≡ a.metadata)
    × (a'.spec ≡ a.spec)
    × (a'.status.phase ≡ bucket_condition_deleting)
    × Collectable ttl a.status.conditions h
MayCollect ttl a h now = Unit
MayCollect ttl a h c = ⊥

abbrev pub collection :
    {A : Type 0} → ℕ → BucketServiceAccount → (History → A → Type 0) → Contract A
collection ttl a P = record { may_call = MayCollect ttl a; may_return = P; may_halt = λ h. ⊥ }

-- What the clock read stays read.
ClockPast-cons :
    (t : ℕ) (c : Call) (r : Reply c) (h : History) → ClockPast t h → ClockPast t ((c, r) ∷ h)
ClockPast-cons t now r h p = inr p
ClockPast-cons t _ r h p = p

expired_later :
    (c : Condition) (ttl : ℕ) (call : Call) (r : Reply call) (h : History)
    → (is_waiting c ≡ false) ⊎ ClockPast (c.last_transition_time + ttl) h
    → (is_waiting c ≡ false) ⊎ ClockPast (c.last_transition_time + ttl) ((call, r) ∷ h)
expired_later c ttl call r h (inl other) = inl other
expired_later c ttl call r h (inr past) = inr (ClockPast-cons _ call r h past)

AllExpired-cons :
    (ttl : ℕ) (cs : List Condition) (c : Call) (r : Reply c) (h : History)
    → AllExpired ttl cs h
    → AllExpired ttl cs ((c, r) ∷ h)
AllExpired-cons ttl [] c r h p = tt
AllExpired-cons ttl (x ∷ xs) c r h p =
    (expired_later x ttl c r h p.0, AllExpired-cons ttl xs c r h p.1)

-- How the loop over the conditions ends, where `I` held before it.
abbrev Scanned : (History → Type 0) → ℕ → List Condition → Bool → History → Option Bool → Type 0
Scanned I ttl cs found h none = Unit
Scanned I ttl cs found h (some b) = I h × AllExpired ttl cs h × (b ≡ last_waiting cs found)

abbrev IsStable : (History → Type 0) → Type 0
IsStable I = (c : Call) (r : Reply c) (h : History) → I h → I ((c, r) ∷ h)

-- How the check of one condition ends.
abbrev Checked : (History → Type 0) → ℕ → Condition → History → Option Bool → Type 0
Checked I ttl c h none = Unit
Checked I ttl c h (some b) =
    I h × (b ≡ is_waiting c) × ((is_waiting c ≡ false) ⊎ ClockPast (c.last_transition_time + ttl) h)

module _ (ttl : ℕ) (all : BucketServiceAccount) (I : History → Type 0) (stable : IsStable I) where
  check_condition-Meets :
      (c : Condition) (h : History)
      → I h
      → Meets (collection ttl all (Checked I ttl c)) h (check_condition ttl c)
  unfolding check_condition
  check_condition-Meets c h i =
      Meets-if (collection ttl all (Checked I ttl c)) h (is_waiting c) _ _
        (λ waits. (
          tt,
          λ t.
              Meets-if (collection ttl all (Checked I ttl c)) ((now, t) ∷ h)
                (ltb t (c.last_transition_time + ttl)) _ _ (λ _. tt)
                λ past. (stable now t h i, sym waits, inr (inl (ground arith))),
        ))
        (λ other. (i, sym other, inl other))

-- One condition more in front.
Scanned-cons :
    (I : History → Type 0) (ttl : ℕ) (c : Condition) (cs : List Condition) (found b : Bool)
    (h : History) (o : Option Bool)
    → b ≡ is_waiting c
    → Scanned
        (λ h. I h × ((is_waiting c ≡ false) ⊎ ClockPast (c.last_transition_time + ttl) h))
        ttl
        cs
        b
        h
        o
    → Scanned I ttl (c ∷ cs) found h o
Scanned-cons I ttl c cs found b h none e p = tt
Scanned-cons I ttl c cs found b h (some b') e p =
    (p.0.0, (p.0.1, p.1), p.2 ∙ ap (last_waiting cs) e)

module _ (ttl : ℕ) (all : BucketServiceAccount) where
  scan-Meets :
      (I : History → Type 0)
      → IsStable I
      → (cs : List Condition) (found : Bool) (h : History) → I h
      → Meets (collection ttl all (Scanned I ttl cs found)) h (scan ttl cs found)
  unfolding scan
  scan-Meets I stable [] found h i = (i, tt, refl)
  scan-Meets I stable (c ∷ cs) found h i =
      Meets-seq (collection ttl all (Scanned I ttl (c ∷ cs) found)) (Checked I ttl c) h
        (check_condition ttl c) _ (check_condition-Meets ttl all I stable c h i)
        λ h'. elim [
          | none ↦ λ _. tt
          | some b ↦ λ p.
              Meets-mono (collection ttl all (Scanned J ttl cs b))
                (collection ttl all (Scanned I ttl (c ∷ cs) found)) h' (scan ttl cs b) (λ h c p. p)
                (λ h o. Scanned-cons I ttl c cs found b h o p.1) (λ h p. p)
                (scan-Meets J J-stable cs b h' (p.0, p.2))
        ]
    where
      J : History → Type 0
      J h = I h × ((is_waiting c ≡ false) ⊎ ClockPast (c.last_transition_time + ttl) h)

      J-stable : IsStable J
      J-stable c' r h j = (stable c' r h j.0, expired_later c ttl c' r h j.1)

module _ (lib : Libraries) (ttl : ℕ) where
  mark_and_drop-Meets :
      (a : BucketServiceAccount) (h : History)
      → Collectable ttl a.status.conditions h
      → Meets (collection ttl a (λ h u. Unit)) h (mark_and_drop lib a)
  unfolding mark_and_drop
  mark_and_drop-Meets a h p = grind (arith, AllExpired-cons)

  -- Whatever the server and the clock reply, the collection of a listed account only reads the clock,
  -- writes the status of this account with the phase `Deleting`, and deletes this account, as it was
  -- listed or as the server replied it after that write. It writes or deletes it only if the last of
  -- the conditions that it listed is `DeletionPending` or `Deleting`, and the clock read in this run
  -- that each condition of these two types has not changed for `ttl`.
  pub collect_account-waits :
      (a : BucketServiceAccount)
      → Meets (collection ttl a (λ h u. Unit)) [] (collect_account lib ttl a)
  unfolding collect_account
  collect_account-waits a =
      Meets-seq (collection ttl a (λ h u. Unit)) (Scanned (λ h. Unit) ttl cs false) []
        (scan ttl cs false) _ (scan-Meets ttl a (λ h. Unit) (λ c r h i. tt) cs false [] tt)
        λ h. elim [
          | none ↦ λ _. tt
          | some b ↦ λ p.
              Meets-if (collection ttl a (λ h u. Unit)) h b _ _
                (λ due. mark_and_drop-Meets a h (sym p.2 ∙ due, p.1)) (λ _. tt)
        ]
    where
      cs : List Condition
      cs = a.status.conditions
