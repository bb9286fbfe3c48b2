-- ===== src/Api.antt =====
-- The types of the two HTTP APIs.
pub mod Types
pub mod Codec
pub mod Server
pub mod Engine
