-- ===== src/Tests/Owners.antt =====
-- The theorems on owner references at the sample.
use minio_bucket_controller.Base.{◌≤◌, arith, ◌≡◌, refl, false, List, [], ◌∷◌, inl, some}
use mathlib.Core.Option.{some-injective}
use minio_bucket_controller.Errors.{ok}
use minio_bucket_controller.Api.Meta.{ObjectMeta, OwnerReference}
use minio_bucket_controller.Api.Object.{account}
use minio_bucket_controller.Controllers.OwnerRef.{
  controller_ref, force_controller_reference, refer_same_object,
}
use minio_bucket_controller.Controllers.OwnerRef.Laws.{
  IsDistinct, IsParsed, count_controllers, force_controller_reference-controller,
}
use minio_bucket_controller.Controllers.OwnerRef.Keeps.{Has, force_controller_reference-keeps}
use minio_bucket_controller.Controllers.Account.Index.{index_owner}
use minio_bucket_controller.Controllers.Account.Index.Laws.{
  account_kind, index_owner-force_controller_reference,
}
use minio_bucket_controller.Tests.Sample.{
  test_libraries, test_libraries-OwnerLaws, test_account, test_bucket, test_friend, test_owner,
}

test_bucket-IsDistinct : IsDistinct test_libraries test_bucket.metadata.owner_references
unfolding refer_same_object
test_bucket-IsDistinct = ((refl, tt), (tt, tt))

test_bucket-IsParsed : IsParsed test_libraries test_bucket.metadata.owner_references
unfolding refer_same_object
test_bucket-IsParsed = (refl, (refl, tt))

test_bucket_controllers : count_controllers test_bucket.metadata.owner_references ≤ 1
test_bucket_controllers = omega arith

force_controller_reference-controller_example :
    (owners : List OwnerReference) × (force_controller_reference test_libraries
        (account test_account)
        test_account.metadata
        test_bucket.metadata
      ≡ ok (record test_bucket.metadata { owner_references = owners }))
    × (test_libraries.get_controller_of owners
        ≡ some (controller_ref test_libraries test_account.metadata account_kind))
    × (count_controllers owners ≡ 1)
force_controller_reference-controller_example =
    force_controller_reference-controller test_libraries test_libraries-OwnerLaws
      (account test_account) test_account.metadata test_bucket.metadata account_kind
      test_bucket-IsDistinct test_bucket-IsParsed test_bucket_controllers refl

index_owner-force_controller_reference_example :
    (owners : List OwnerReference) × (force_controller_reference test_libraries
        (account test_account)
        test_account.metadata
        test_bucket.metadata
      ≡ ok (record test_bucket.metadata { owner_references = owners }))
    × (index_owner test_libraries (record test_bucket {
      metadata = record test_bucket.metadata { owner_references = owners };
    })
        ≡ "writer" ∷ [])
index_owner-force_controller_reference_example =
    index_owner-force_controller_reference test_libraries test_libraries-OwnerLaws test_account
      test_bucket test_bucket-IsDistinct test_bucket-IsParsed test_bucket_controllers refl

other_owner :
    (e : OwnerReference)
    → test_libraries.get_controller_of test_bucket.metadata.owner_references ≡ some e
    → refer_same_object test_libraries test_friend e ≡ false
unfolding refer_same_object
other_owner e there = rw⁻¹ (some-injective test_owner e there) refl

force_controller_reference-keeps_example :
    (m : ObjectMeta) × (force_controller_reference test_libraries
        (account test_account)
        test_account.metadata
        test_bucket.metadata
      ≡ ok m)
    × Has test_friend m.owner_references
unfolding refer_same_object controller_ref
force_controller_reference-keeps_example =
    force_controller_reference-keeps test_libraries test_friend (account test_account)
      test_account.metadata test_bucket.metadata account_kind refl refl other_owner (inl refl)
