-- ===== src/Store.antt =====
-- The data access layer, internal/store.
pub mod Model
pub mod Interface
pub mod Database
pub mod Policies
