-- ===== src/Client.antt =====
-- pkg/client/client.gen.go: the client of the policy API.
pub mod Responses
pub mod Requests
pub mod Laws
pub mod Engine
