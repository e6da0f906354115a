-- ===== src/Apis.antt =====
-- The Kubernetes resource types of the provider (apis/).
pub mod Managed
pub mod Challenge
pub mod Page
pub mod Settings
pub mod Provider
