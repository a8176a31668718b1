-- ===== src/Credential.antt =====
-- The credentials and their status lists.
pub mod Keys
pub mod Stored
pub mod Storage
pub mod Indexes
pub mod Status
pub mod Service
