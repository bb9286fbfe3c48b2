-- ===== src/Service/Policies.antt =====
-- internal/service/policy.go
pub mod Validation
pub mod Identifiers
pub mod Operations
pub mod Listing
