-- ===== src/Api/DeepCopy/Memory.antt =====
-- Go's memory, as far as the objects of api/v1alpha1 point into it, and programs that copy. The
-- argument `M` is the struct `metav1.ObjectMeta`, which is not of the repository.
use minio_bucket_controller.Base.{ℕ, suc, String, List, Option, none, some, ltb, eqb, if◌then◌else◌}
use minio_bucket_controller.Base.Dict.{Dict}
use minio_bucket_controller.Api.Meta.{Condition}
use minio_bucket_controller.Api.Provider.{BucketProviderSpec}
use minio_bucket_controller.Api.Account.{BucketServiceAccountSpec}

-- The structs with their pointers, maps and slices as addresses; `none` is nil.
pub record StoredBucketSpec : Type 0 where
  pub provider : String
  pub service_account : String
  pub reclaim_policy : String
  pub secret_name : Option ℕ
  pub secret_template : Option ℕ

pub record StoredBucketStatus : Type 0 where
  pub endpoint : Option ℕ
  pub secret_name : Option ℕ
  pub conditions : Option ℕ
  pub phase : String

pub record StoredBucket (M : Type 0) : Type 0 where
  pub metadata : M
  pub spec : StoredBucketSpec
  pub status : StoredBucketStatus

pub record StoredProviderStatus : Type 0 where
  pub conditions : Option ℕ
  pub phase : String

pub record StoredProvider (M : Type 0) : Type 0 where
  pub metadata : M
  pub spec : BucketProviderSpec
  pub status : StoredProviderStatus

pub record StoredAccountStatus : Type 0 where
  pub secret_name : Option ℕ
  pub conditions : Option ℕ
  pub phase : String

pub record StoredAccount (M : Type 0) : Type 0 where
  pub metadata : M
  pub spec : BucketServiceAccountSpec
  pub status : StoredAccountStatus

-- A list of resources, with the struct `metav1.ListMeta`.
pub record StoredList (L : Type 0) : Type 0 where
  pub metadata : L
  pub items : Option ℕ

-- What stands at an address: a string, a map, or the elements of a slice.
pub data Cell (M : Type 0) : Type 0 where
  text_cell : String → Cell M
  map_cell : Dict String → Cell M
  conditions_cell : List Condition → Cell M
  buckets_cell : List (StoredBucket M) → Cell M
  providers_cell : List (StoredProvider M) → Cell M
  accounts_cell : List (StoredAccount M) → Cell M

-- The addresses below `next` are in use.
pub record Memory (M : Type 0) : Type 0 where
  pub next : ℕ
  pub cell : ℕ → Cell M

module _ {M : Type 0} where
  abbrev pub load : Memory M → ℕ → Option (Cell M)
  load m a = if ltb a m.next then some (m.cell a) else none

  -- A write to an address.
  abbrev pub write : Memory M → ℕ → Cell M → Memory M
  write m a c = record m { cell = λ b. if eqb b a then c else m.cell b }

  -- The memory with a new address for a cell.
  abbrev pub extended : Cell M → Memory M → Memory M
  extended c m = record { next = suc m.next; cell = λ b. if eqb b m.next then c else m.cell b }

-- A program that copies: it panics, or returns with the memory as it leaves it.
abbrev pub Copy : Type 0 → Type 0 → Type 0
Copy M A = Memory M → Option (A × Memory M)

module _ {M : Type 0} where
  abbrev pub pure : {A : Type 0} → A → Copy M A
  pure a m = some (a, m)

  abbrev pub and_then :
      {A B : Type 0} → Option (A × Memory M) → (A → Copy M B) → Option (B × Memory M)
  and_then none f = none
  and_then (some (a, m)) f = f a m

  infixl 5 ◌>>=◌
  abbrev pub ◌>>=◌ : {A B : Type 0} → Copy M A → (A → Copy M B) → Copy M B
  ◌>>=◌ p f m = and_then (p m) f

  -- A new address, which holds this.
  abbrev pub new : Cell M → Copy M ℕ
  new c m = some (m.next, extended c m)
