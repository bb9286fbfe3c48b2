-- ===== src/Service/Constraints.antt =====
-- internal/service/constraints.go: the constraints that earlier policies have set.
pub mod Copy
pub mod Values
pub mod Keywords
pub mod Context
pub mod Providers
pub mod Validate
