-- ===== src/Informers.antt =====
-- pkg/client/informers/externalversions: the factory of shared informers and the informer of
-- ReactiveJobs.
pub mod Registry
pub mod Factory
pub mod Lifecycle
pub mod Sync
pub mod ReactiveJobs
pub mod Channels
pub mod Interface
pub mod Listers
pub mod Adapter
