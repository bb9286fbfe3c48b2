-- ===== src/Handlers/Policies.antt =====
-- internal/handlers/v1alpha1/policy.go: the handlers of the policy API, over the service. `W` is the
-- state that the service works on.
pub mod Service
pub mod Strict
pub mod Laws
pub mod Reached
pub mod Paging
use policy_manager.Base.{String, Option, none, some, Result, ok, err}
use policy_manager.Base.Int.{ℤ}
use policy_manager.Api.Types.{ErrorCode}
use policy_manager.Api.Types
use policy_manager.Api.Server
use policy_manager.Api.Server.{
  ListPoliciesParams, CreatePolicyResponse, create_policy_201, create_policy_400, GetPolicyResponse,
  get_policy_200, ListPoliciesResponse, list_policies_200, UpdatePolicyResponse, update_policy_200,
  update_policy_400, DeletePolicyResponse, delete_policy_204,
}
use policy_manager.Handlers.Conversions.{
  policy_server_to_v1_alpha1, policy_v1_alpha1_to_server, list_response_v1_alpha1_to_server,
}
use policy_manager.Handlers.Errors.{
  AnyError, problem, handle_create_policy_error, handle_get_policy_error,
  handle_list_policies_error, handle_update_policy_error, handle_delete_policy_error,
}
use policy_manager.Handlers.Policies.Service.{PolicyService}

-- The response to a request without a body.
abbrev pub no_body : Server.Error
no_body = problem 400 ErrorCode.invalid_argument "Invalid request body" "Request body is required"

module _ {W : Type 0} (service : PolicyService W) where
  created : Result AnyError Types.Policy × W → CreatePolicyResponse × W
  created (err e, w) = (handle_create_policy_error e, w)
  created (ok p, w) = (create_policy_201 "" (policy_v1_alpha1_to_server p), w)

  -- The headers of the response are left empty.
  unfoldable pub create_policy : Option Server.Policy → Option String → W → CreatePolicyResponse × W
  unfolding created
  create_policy none id w = (create_policy_400 no_body, w)
  create_policy (some body) id w =
      created (service.create_policy (policy_server_to_v1_alpha1 body) id w)

  got : Result AnyError Types.Policy → GetPolicyResponse
  got (err e) = handle_get_policy_error e
  got (ok p) = get_policy_200 (policy_v1_alpha1_to_server p)

  unfoldable pub get_policy : String → W → GetPolicyResponse
  unfolding got
  get_policy id w = got (service.get_policy id w)

  listed : Result AnyError Types.PolicyList → ListPoliciesResponse
  listed (err e) = handle_list_policies_error e
  listed (ok r) = list_policies_200 (list_response_v1_alpha1_to_server r)

  unfoldable pub list_policies : ListPoliciesParams → W → ListPoliciesResponse
  unfolding listed
  list_policies params w =
      listed (
        service.list_policies params.filter params.order_by params.page_token params.max_page_size
          w)

  updated : Result AnyError Types.Policy × W → UpdatePolicyResponse × W
  updated (err e, w) = (handle_update_policy_error e, w)
  updated (ok p, w) = (update_policy_200 (policy_v1_alpha1_to_server p), w)

  unfoldable pub update_policy : String → Option Server.Policy → W → UpdatePolicyResponse × W
  unfolding updated
  update_policy id none w = (update_policy_400 no_body, w)
  update_policy id (some body) w =
      updated (service.update_policy id (some (policy_server_to_v1_alpha1 body)) w)

  deleted : Result AnyError (Unit {0}) × W → DeletePolicyResponse × W
  deleted (err e, w) = (handle_delete_policy_error e, w)
  deleted (ok u, w) = (delete_policy_204, w)

  unfoldable pub delete_policy : String → W → DeletePolicyResponse × W
  unfolding deleted
  delete_policy id w = deleted (service.delete_policy id w)
