-- ===== src/Storage.antt =====
-- pkg/storage: the interface of a key-value store with transactions, its Bolt implementation, the
-- encrypting wrapper around an implementation, and the updates of stored documents.
pub mod Contract
pub mod Bolt
pub mod Encrypt
pub mod Update
pub mod Kind
pub mod Redis
