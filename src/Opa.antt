-- ===== src/Opa.antt =====
-- The embedded policy engine, internal/opa.
pub mod Decision
pub mod Engine
