-- ===== src/Api.antt =====
-- api/v1alpha1 and the Kubernetes metadata that its types embed.
pub mod Meta
pub mod Bucket
pub mod Provider
pub mod Account
pub mod Secret
pub mod Object
pub mod DeepCopy
