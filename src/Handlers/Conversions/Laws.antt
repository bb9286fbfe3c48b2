-- ===== src/Handlers/Conversions/Laws.antt =====
-- internal/handlers/v1alpha1/converters.go: the two conversions one after the other.
use policy_manager.Base.{◌≡◌, refl}
use policy_manager.Api.Types
use policy_manager.Api.Server
use policy_manager.Handlers.Conversions.{policy_server_to_v1_alpha1, policy_v1_alpha1_to_server}

-- A policy that crosses from the server's type to the API's and back, or the other way, is the same.
pub policy_server_to_v1_alpha1-policy_v1_alpha1_to_server :
    (p : Types.Policy) (q : Server.Policy)
    → (policy_server_to_v1_alpha1 (policy_v1_alpha1_to_server p) ≡ p)
      × (policy_v1_alpha1_to_server (policy_server_to_v1_alpha1 q) ≡ q)
unfolding policy_server_to_v1_alpha1 policy_v1_alpha1_to_server
policy_server_to_v1_alpha1-policy_v1_alpha1_to_server p q = (refl, refl)
