-- ===== src/Controllers.antt =====
-- controllers/: the reconcilers, the admission webhooks and what they share.
pub mod OwnerRef
pub mod Status
pub mod History
pub mod SecretRef
pub mod Provider
pub mod Bucket
pub mod Account
pub mod Webhook
