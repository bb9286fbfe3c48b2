-- ===== src/Handlers.antt =====
-- The HTTP handlers, internal/handlers.
pub mod Conversions
pub mod Errors
pub mod Policies
pub mod Evaluation
