-- ===== src/Mc.antt =====
-- pkg/mc/minio.go: the client of a MinIO server, its policies and its passwords.
pub mod Client
pub mod Connect
pub mod Policy
