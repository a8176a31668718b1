-- ===== src/Presentation.antt =====
-- pkg/service/presentation: presentation definitions, submissions and their review.
pub mod Storage
pub mod Service
