-- ===== src/Api.antt =====
-- The API types of api/v1alpha1 and the status helpers of reactivejob_utils.go.
pub mod Meta
pub mod Types
pub mod Condition
pub mod Stored
pub mod DeepCopy
