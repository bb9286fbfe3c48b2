-- ===== src/Main.antt =====
-- cmd/policy-manager/main.go: the process.
pub mod Config
pub mod Logging
pub mod Database
pub mod Startup
pub mod Servers
