-- ===== src/Tests.antt =====
-- Concrete instances of what the program takes from its libraries, and the theorems applied at
-- concrete inputs.
pub mod Mem
pub mod Blob
pub mod Cipher
pub mod Keys
mod Stores
mod Updates
pub mod Sdk
pub mod Submissions
mod Services
mod Lists
mod Pages
mod Applications
mod Dids
mod Signed
mod Redis
mod Templates
mod Issued
mod Forged
mod Manifests
