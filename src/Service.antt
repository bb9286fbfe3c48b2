-- ===== src/Service.antt =====
-- The business logic, internal/service.
pub mod Labels
pub mod Patch
pub mod Errors
pub mod Constraints
pub mod Evaluation
pub mod Converter
pub mod Policies
pub mod OrderBy
pub mod Filter
