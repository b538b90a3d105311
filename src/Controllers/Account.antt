-- ===== src/Controllers/Account.antt =====
-- controllers/bucketserviceaccount_controller.go: the reconciler of service accounts, in children
-- named for its steps, and the collection of accounts that no bucket uses.
pub mod Failure
pub mod User
pub mod Keys
pub mod Policies
pub mod Deletion
pub mod Reconcile
pub mod Collect
pub mod Index
