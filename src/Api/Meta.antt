-- ===== src/Api/Meta.antt =====
-- The fields of `metav1.ObjectMeta`, `metav1.Condition` and `metav1.OwnerReference` that the
-- controllers read or write. Times are counted in nanoseconds; 0 is the zero time.
use minio_bucket_controller.Base.{
  ℕ, zero, suc, String, Bool, true, false, List, [], Option, none, some,
}
use minio_bucket_controller.Base.Dict.{Dict}

-- `metav1.ConditionTrue` and its two siblings
pub data ConditionStatus : Type 0 where
  status_true status_false status_unknown : ConditionStatus

pub record Condition : Type 0 where
  pub type : String
  pub status : ConditionStatus
  pub reason : String
  pub message : String
  pub observed_generation : ℕ
  pub last_transition_time : ℕ

pub record OwnerReference : Type 0 where
  pub api_version : String
  pub kind : String
  pub name : String
  pub uid : String
  pub block_owner_deletion : Option Bool
  pub controller : Option Bool

pub record ObjectMeta : Type 0 where
  pub name : String
  pub namespace : String
  pub uid : String
  pub generation : ℕ
  pub resource_version : String
  pub labels : Dict String
  pub annotations : Dict String
  pub finalizers : List String
  pub owner_references : List OwnerReference
  pub deletion_timestamp : Option ℕ

-- `metav1.ObjectMeta{Name: name, Namespace: namespace}`
abbrev pub named : String → String → ObjectMeta
named name namespace = record {
  name = name;
  namespace = namespace;
  uid = "";
  generation = 0;
  resource_version = "";
  labels = [];
  annotations = [];
  finalizers = [];
  owner_references = [];
  deletion_timestamp = none;
}

-- `types.NamespacedName`; the namespace is empty for a cluster-scoped object.
pub record NamespacedName : Type 0 where
  pub namespace : String
  pub name : String

-- `DeletionTimestamp.IsZero()`
abbrev pub is_zero : Option ℕ → Bool
is_zero none = true
is_zero (some zero) = true
is_zero (some (suc t)) = false
