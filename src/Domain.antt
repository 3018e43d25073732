-- ===== src/Domain.antt =====
-- internal/domain.
pub mod Operations
pub mod Jobs
pub mod Clock
