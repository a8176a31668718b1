-- ===== src/Operation.antt =====
-- pkg/service/operation: long-running operations on submissions and applications.
pub mod Ids
pub mod Stored
pub mod Storage
pub mod Service
