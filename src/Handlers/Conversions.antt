-- ===== src/Handlers/Conversions.antt =====
-- internal/handlers/v1alpha1/converters.go
pub mod Laws
use policy_manager.Base.{Option, none, some, map}
use policy_manager.Api.Types
use policy_manager.Api.Server

unfoldable pub policy_server_to_v1_alpha1 : Server.Policy → Types.Policy
policy_server_to_v1_alpha1 p = record {
  create_time = p.create_time;
  description = p.description;
  display_name = p.display_name;
  enabled = p.enabled;
  id = p.id;
  label_selector = p.label_selector;
  path = p.path;
  policy_type = p.policy_type;
  priority = p.priority;
  rego_code = p.rego_code;
  update_time = p.update_time;
}

unfoldable pub policy_v1_alpha1_to_server : Types.Policy → Server.Policy
policy_v1_alpha1_to_server p = record {
  create_time = p.create_time;
  description = p.description;
  display_name = p.display_name;
  enabled = p.enabled;
  id = p.id;
  label_selector = p.label_selector;
  path = p.path;
  policy_type = p.policy_type;
  priority = p.priority;
  rego_code = p.rego_code;
  update_time = p.update_time;
}

unfoldable pub list_response_v1_alpha1_to_server : Types.PolicyList → Server.PolicyList
unfolding policy_v1_alpha1_to_server
list_response_v1_alpha1_to_server r = record {
  next_page_token = r.next_page_token;
  policies = map policy_v1_alpha1_to_server r.policies;
}
