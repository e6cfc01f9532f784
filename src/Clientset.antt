-- ===== src/Clientset.antt =====
-- The clients of pkg/client/clientset/versioned: how a configuration becomes a clientset.
pub mod Rest
pub mod Batch
pub mod Versioned
pub mod Laws
pub mod Fake
pub mod Schemes
pub mod FakeBatch
