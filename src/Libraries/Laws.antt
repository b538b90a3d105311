-- ===== src/Libraries/Laws.antt =====
-- What the documentation of the libraries promises, as far as a theorem relies on it.
use minio_bucket_controller.Base.{
  ◌≡◌, String, contains, not, Bool, true, false, List, [], ◌∷◌, Option, none, some, if◌then◌else◌,
}
use minio_bucket_controller.Api.Meta.{OwnerReference}
use minio_bucket_controller.Api.Object.{Object, pointer, secret_value}
use minio_bucket_controller.Api.Secret.{Secret}
use minio_bucket_controller.Libraries.{Libraries}

abbrev pub is_controller : OwnerReference → Bool
is_controller r = elim r.controller [ none ↦ false | some b ↦ b ]

-- The first reference whose `controller` is true.
abbrev pub first_controller : List OwnerReference → Option OwnerReference
first_controller [] = none
first_controller (r ∷ rs) = if is_controller r then some r else first_controller rs

-- `metav1.GetControllerOf` returns the controller among the owners, if there is one.
pub record OwnerLaws (lib : Libraries) : Type 0 where
  pub get_controller_of_lem :
      (rs : List OwnerReference) → lib.get_controller_of rs ≡ first_controller rs

-- `equality.Semantic.DeepEqual`: values of different types are not equal, and pointers are
-- equal where what they point to is.
pub record EqualityLaws (lib : Libraries) : Type 0 where
  pub deep_equal-value-pointer :
      (s : Secret) (o : Object) → lib.deep_equal (secret_value s) (pointer o) ≡ false
  pub deep_equal-pointer : (o : Object) → lib.deep_equal (pointer o) (pointer o) ≡ true

-- `controllerutil.AddFinalizer` adds a finalizer that is not there, and returns whether it did.
pub record FinalizerLaws (lib : Libraries) : Type 0 where
  pub add_finalizer-updated :
      (fs : List String) (f : String) → (lib.add_finalizer fs f).updated ≡ not (contains fs f)
  pub add_finalizer-contains :
      (fs : List String) (f : String) → contains (lib.add_finalizer fs f).finalizers f ≡ true
