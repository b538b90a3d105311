-- ===== src/Controllers/Bucket.antt =====
-- controllers/bucket_controller.go: the reconciler of buckets. The steps are in the children
-- `Deletion`, `Resources`, `Credentials` and `Failure`.
pub mod Failure
pub mod Deletion
pub mod Resources
pub mod Credentials
pub mod Reconcile
