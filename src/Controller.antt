-- ===== src/Controller.antt =====
-- internal/controllers: the reconciler of ReactiveJobs (reactivejob_controller.go) and its helpers
-- (utils.go). The state of a run is the object `reactiveJob` that it holds in memory, the flag
-- `skipStatusUpdate` and the calls it has made; a step returns an outcome and the new state.
pub mod Monad
pub mod Hash
pub mod Objects
pub mod Emits
pub mod Calls
pub mod Steps
pub mod Reconcile
pub mod Safety
pub mod NewJob
pub mod Report
pub mod Newest
pub mod Runs
pub mod Watch
pub mod Life
pub mod Cluster
pub mod Drain
