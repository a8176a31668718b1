-- ===== src/Did.antt =====
-- pkg/service/did: DIDs in the store, by method, the handlers of the methods, and the service.
pub mod Ids
pub mod Storage
pub mod Handlers
pub mod Service
pub mod Batch
