-- ===== src/Controllers/Account/Policies/Laws.antt =====
-- controllers/bucketserviceaccount_controller.go: the policies of an account.
use minio_bucket_controller.Base.{
  String, Bool, Bool-cases, ◌==◌, ◌≡◌, refl, true, false, ◌⊎◌, inl, inr, List, [], ◌∷◌, Option,
  none, some, All, arith, if◌then◌else◌,
}
use minio_bucket_controller.Base.Dict.{lookup}
use minio_bucket_controller.Errors.{Result, ok, err}
use minio_bucket_controller.Api.Account.{BucketServiceAccount}
use minio_bucket_controller.Api.Bucket.{Bucket}
use minio_bucket_controller.Libraries.{Libraries}
use minio_bucket_controller.Mc.Client.{Client}
use minio_bucket_controller.Mc.Policy.{policy_text, policy}
use minio_bucket_controller.Program.{
  halt, Call, Reply, list_buckets, list_canned_policies, add_canned_policy, set_policy,
  update_account_status,
}
use minio_bucket_controller.Program.Contract.{History, Contract, Meets, Meets-seq, Meets-mono}
use minio_bucket_controller.Controllers.Status.{Step, name}
use minio_bucket_controller.Controllers.Account.Policies.{
  owner_key, policy_names, add_policy, want_policy, reconcile_policy, reconcile_each,
  assign_policies, mark_pending, clear_pending, reconcile_policies,
}

-- The buckets that the server replied last.
abbrev pub listed : History → Option (List Bucket)
listed [] = none
listed ((list_buckets field value, ok bs) ∷ h) = some bs
listed ((c, r) ∷ h) = listed h

-- The account as the server replied it last, which at first is the account of the pass.
abbrev pub current : BucketServiceAccount → History → BucketServiceAccount
current a [] = a
current a ((update_account_status a', ok a'') ∷ h) = a''
current a ((c, r) ∷ h) = current a h

module _ (lib : Libraries) where
  -- The policy, as MinIO has it, is the bucket's, up to the layout of the JSON.
  abbrev pub is_policy_of : Option String → String → Bool
  is_policy_of none bucket = false
  is_policy_of (some js) bucket = elim (lib.json_compact (policy_text bucket)) [
    | err e ↦ false
    | ok want ↦ elim (lib.json_marshal js) [ err e ↦ false | ok got ↦ got == want ]
  ]

  -- MinIO replied that it has the policy of this bucket, or that it was added.
  abbrev pub Ensured : String → History → Type 0
  Ensured bucket [] = ⊥
  Ensured bucket ((list_canned_policies mc, ok ps) ∷ h) =
      (is_policy_of (lookup (name bucket) ps) bucket ≡ true) ⊎ Ensured bucket h
  Ensured bucket ((add_canned_policy mc n text, ok u) ∷ h) =
      ((n ≡ name bucket) × (lib.json_compact (policy_text bucket) ≡ ok text)) ⊎ Ensured bucket h
  Ensured bucket ((c, r) ∷ h) = Ensured bucket h

  Ensured-cons :
      (bucket : String) (c : Call) (r : Reply c) (h : History)
      → Ensured bucket h
      → Ensured bucket ((c, r) ∷ h)
  Ensured-cons bucket (list_canned_policies mc) (ok ps) h p = inr p
  Ensured-cons bucket (add_canned_policy mc n text) (ok u) h p = inr p
  Ensured-cons bucket _ r h p = p

  -- Every bucket of the list has its policy in MinIO.
  abbrev pub AllEnsured : List Bucket → History → Type 0
  AllEnsured bs h = All (λ b. Ensured b.metadata.name h) bs

  -- Whether the policy of a bucket is JSON.
  abbrev pub compacts : String → Bool
  compacts bucket = elim (lib.json_compact (policy_text bucket)) [ err e ↦ false | ok b ↦ true ]

  -- The calls that the contract allows: policies are set for the buckets that were listed, where each
  -- has its policy.
  abbrev pub MayCall : Client → BucketServiceAccount → History → Call → Type 0
  MayCall mc a h (list_buckets field value) = (field ≡ owner_key) × (value ≡ a.metadata.name)
  MayCall mc a h (add_canned_policy mc' n text) = mc ≡ mc'
  MayCall mc a h (set_policy mc' names user) = elim (listed h) [
    | none ↦ ⊥
    | some bs ↦
        (mc ≡ mc')
        × (names ≡ policy_names lib bs)
        × (user ≡ name (current a h).metadata.name)
        × AllEnsured bs h
  ]
  MayCall mc a h c = Unit

  abbrev pub assignment :
      {A : Type 0} → Client → BucketServiceAccount → (History → A → Type 0) → Contract A
  assignment mc a P = record {
    may_call = MayCall mc a;
    may_return = P;
    may_halt = λ h. (bucket : String) × (compacts bucket ≡ false);
  }

  abbrev IsStable : (History → Type 0) → Type 0
  IsStable I =
      ((mc : Client) (r : Reply (list_canned_policies mc)) (h : History)
        → I h
        → I ((list_canned_policies mc, r) ∷ h))
      × ((mc : Client) (n text : String) (r : Reply (add_canned_policy mc n text)) (h : History)
          → I h
          → I ((add_canned_policy mc n text, r) ∷ h))

  -- How the step for one bucket ends, and the loop over the buckets.
  abbrev AfterOne : (History → Type 0) → Bucket → History → Step Bucket → Type 0
  AfterOne I b h s = if s.done then I h × Ensured b.metadata.name h else Unit

  abbrev AfterAll : (History → Type 0) → List Bucket → History → Step BucketServiceAccount → Type 0
  AfterAll I bs h s = if s.done then I h × AllEnsured bs h else Unit

  module _ (mc : Client) (a : BucketServiceAccount) (I : History → Type 0)
      (stable : IsStable I) where
    add_policy-Meets :
        (h : History) (b : Bucket) (want : String)
        → I h
        → lib.json_compact (policy_text b.metadata.name) ≡ ok want
        → Meets (assignment mc a (AfterOne I b)) h (add_policy lib mc b want)
    unfolding add_policy
    add_policy-Meets h b want i e =
        (refl, elim [ err e ↦ tt | ok u ↦ (stable.1 mc _ want (ok u) h i, inl (refl, e)) ])

    want_policy-Meets :
        (h : History) (b : Bucket) (want : String)
        → I h
        → lib.json_compact (policy_text b.metadata.name) ≡ ok want
        → Meets (assignment mc a (AfterOne I b)) h (want_policy lib mc b want)
    unfolding want_policy
    want_policy-Meets h b want i e = grind (arith, stable.0, add_policy-Meets)

    compacted-Meets :
        (h : History) (b : Bucket) (r : Result String)
        → I h
        → lib.json_compact (policy_text b.metadata.name) ≡ r
        → Meets
            (assignment mc a (AfterOne I b))
            h
            (elim r [ err e ↦ halt | ok want ↦ want_policy lib mc b want ])
    compacted-Meets h b (err e) i q = (b.metadata.name, rw (compacts, q) refl)
    compacted-Meets h b (ok want) i q = want_policy-Meets h b want i q

    reconcile_policy-Meets :
        (h : History) (b : Bucket)
        → I h
        → Meets (assignment mc a (AfterOne I b)) h (reconcile_policy lib mc b)
    unfolding reconcile_policy policy
    reconcile_policy-Meets h b i = go _ refl
      where
        go :
            (r : Result String)
            → lib.json_compact (policy_text b.metadata.name) ≡ r
            → Meets (assignment mc a (AfterOne I b)) h (reconcile_policy lib mc b)
        go (err e) q = ground (arith, compacted-Meets h b (err e) i q)
        go (ok want) q = ground (arith, compacted-Meets h b (ok want) i q)

  AfterAll-cons :
      (I : History → Type 0) (b : Bucket) (bs : List Bucket) (h : History)
      (s : Step BucketServiceAccount)
      → AfterAll (λ h. I h × Ensured b.metadata.name h) bs h s
      → AfterAll I (b ∷ bs) h s
  AfterAll-cons I b bs h s p = ground arith

  module _ (mc : Client) (a : BucketServiceAccount) where
    reconcile_each-Meets :
        (x : BucketServiceAccount) (I : History → Type 0)
        → IsStable I
        → (bs : List Bucket) (h : History) → I h
        → Meets (assignment mc a (AfterAll I bs)) h (reconcile_each lib mc x bs)
    unfolding reconcile_each
    reconcile_each-Meets x I stable [] h i = (i, tt)
    reconcile_each-Meets x I stable (b ∷ bs) h i =
        Meets-seq (assignment mc a (AfterAll I (b ∷ bs))) (AfterOne I b) h
          (reconcile_policy lib mc b) _ (reconcile_policy-Meets mc a I stable h b i)
          λ h' s p. elim (Bool-cases s.done) [
            | inl done ↦ rw done (
                Meets-mono (assignment mc a (AfterAll J bs)) (assignment mc a (AfterAll I (b ∷ bs)))
                  h' (reconcile_each lib mc x bs) (λ h c p. p) (AfterAll-cons I b bs) (λ h p. p)
                  (reconcile_each-Meets x J J-stable bs h' (ground arith)))
            | inr stopped ↦ rw stopped tt
          ]
      where
        J : History → Type 0
        J h = I h × Ensured b.metadata.name h

        J-stable : IsStable J
        J-stable = (
          λ mc r h j.
              (stable.0 mc r h j.0, Ensured-cons b.metadata.name (list_canned_policies mc) r h j.1),
          λ mc n t r h j. (
            stable.1 mc n t r h j.0,
            Ensured-cons b.metadata.name (add_canned_policy mc n t) r h j.1,
          ),
        )

    MayCall-set_policy :
        (x : BucketServiceAccount) (bs : List Bucket) (h : History)
        → (listed h ≡ some bs) × (current a h ≡ x)
        → AllEnsured bs h
        → MayCall mc a h (set_policy mc (policy_names lib bs) (name x.metadata.name))
    MayCall-set_policy x bs h e p = rw (MayCall, e.0) (refl, refl, rw e.1 refl, p)

    assign_policies-Meets :
        (x : BucketServiceAccount) (bs : List Bucket) (h : History)
        → (listed h ≡ some bs) × (current a h ≡ x)
        → Meets (assignment mc a (λ h s. Unit)) h (assign_policies lib mc x bs)
    unfolding assign_policies
    assign_policies-Meets x bs h e =
        Meets-seq (assignment mc a (λ h s. Unit)) (AfterAll I bs) h (reconcile_each lib mc x bs) _
          (reconcile_each-Meets x I ((λ mc r h i. i), (λ mc n t r h i. i)) bs h e)
          λ h' s p. elim (Bool-cases s.done) [
            | inl done ↦ rw done (
              MayCall-set_policy x bs h' (ground arith) (ground arith),
              elim [ err e ↦ tt | ok u ↦ ground arith ],
            )
            | inr stopped ↦ rw stopped tt
          ]
      where
        I : History → Type 0
        I h = (listed h ≡ some bs) × (current a h ≡ x)

    mark_pending-Meets :
        (h : History)
        → (listed h ≡ some []) × (current a h ≡ a)
        → Meets (assignment mc a (λ h s. Unit)) h (mark_pending lib mc a)
    unfolding mark_pending
    mark_pending-Meets h e = ground (arith, assign_policies-Meets a [] h e)

    clear_pending-Meets :
        (bs : List Bucket) (h : History)
        → (listed h ≡ some bs) × (current a h ≡ a)
        → Meets (assignment mc a (λ h s. Unit)) h (clear_pending lib mc a bs)
    unfolding clear_pending
    clear_pending-Meets bs h e = grind (arith, assign_policies-Meets)

    -- The rights of an account: its user is given just the policies of the buckets that the server
    -- replied for the account, and only after each of them is in MinIO as its bucket's
    -- policy or was added. The process ends only where the text of a policy is no JSON. The user is
    -- that of the account as the server replied it last.
    pub reconcile_policies-rights :
        Meets (assignment mc a (λ h s. Unit)) [] (reconcile_policies lib mc a)
    unfolding reconcile_policies
    reconcile_policies-rights = (
      (refl, refl),
      elim [
        | err e ↦ tt
        | ok [] ↦ mark_pending-Meets _ (refl, refl)
        | ok (b ∷ bs) ↦ clear_pending-Meets (b ∷ bs) _ (refl, refl)
      ],
    )
