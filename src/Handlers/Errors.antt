-- ===== src/Handlers/Errors.antt =====
-- internal/handlers/v1alpha1/errors.go: from an error of the service to a response.
pub mod Laws
use policy_manager.Base.{ℕ, Bool, true, false, String, Option, some}
use policy_manager.Api.Types.{ErrorCode}
use policy_manager.Api.Types
use policy_manager.Api.Server
use policy_manager.Api.Server.{
  CreatePolicyResponse, create_policy_400, create_policy_409, create_policy_500, GetPolicyResponse,
  get_policy_404, get_policy_500, ListPoliciesResponse, list_policies_400, list_policies_500,
  UpdatePolicyResponse, update_policy_400, update_policy_404, update_policy_409, update_policy_500,
  DeletePolicyResponse, delete_policy_404, delete_policy_500,
}
use policy_manager.Service.Errors.{ErrorType, ServiceError}

-- A Go error: a *ServiceError, or any other with its text.
pub data AnyError : Type 0 where
  service_error : ServiceError → AnyError
  other_error : String → AnyError

is_client_type : ErrorType → Bool
is_client_type ErrorType.invalid_argument = true
is_client_type ErrorType.not_found = true
is_client_type ErrorType.already_exists = true
is_client_type ErrorType.failed_precondition = true
is_client_type t = false

unfoldable pub is_client_error : AnyError → Bool
unfolding is_client_type
is_client_error (service_error e) = is_client_type e.type
is_client_error (other_error e) = false

-- `buildErrorResponse`
abbrev pub build_error_response : ℕ → ErrorCode → String → Option String → Types.Error
build_error_response status type title detail = record {
  detail = detail;
  instance_id = Option.none;
  status = status;
  title = title;
  type = type;
}

-- `serverErrorFromV1Alpha1`, and the helpers that wrap its result in a response type.
abbrev pub server_error_from_v1_alpha1 : Types.Error → Server.Error
server_error_from_v1_alpha1 e = record {
  detail = e.detail;
  instance_id = e.instance_id;
  status = e.status;
  title = e.title;
  type = e.type;
}

abbrev pub problem : ℕ → ErrorCode → String → String → Server.Error
problem status type title detail =
    server_error_from_v1_alpha1 (build_error_response status type title (some detail))

-- The 500 of an error that the client cannot act on.
abbrev pub internal_problem : String → Server.Error
internal_problem detail = problem 500 ErrorCode.internal "Internal server error" detail

abbrev pub bad_request_problem : ServiceError → Server.Error
bad_request_problem e = problem 400 ErrorCode.invalid_argument e.message e.detail

abbrev pub not_found_problem : ServiceError → Server.Error
not_found_problem e = problem 404 ErrorCode.not_found e.message e.detail

abbrev pub already_exists_problem : ServiceError → Server.Error
already_exists_problem e = problem 409 ErrorCode.already_exists e.message e.detail

create_error_of : ErrorType → ServiceError → CreatePolicyResponse
create_error_of ErrorType.invalid_argument e = create_policy_400 (bad_request_problem e)
create_error_of ErrorType.already_exists e = create_policy_409 (already_exists_problem e)
create_error_of t e = create_policy_500 (internal_problem e.detail)

unfoldable pub handle_create_policy_error : AnyError → CreatePolicyResponse
unfolding create_error_of
handle_create_policy_error (service_error e) = create_error_of e.type e
handle_create_policy_error (other_error e) = create_policy_500 (internal_problem e)

get_error_of : ErrorType → ServiceError → GetPolicyResponse
get_error_of ErrorType.not_found e = get_policy_404 (not_found_problem e)
get_error_of t e = get_policy_500 (internal_problem e.detail)

unfoldable pub handle_get_policy_error : AnyError → GetPolicyResponse
unfolding get_error_of
handle_get_policy_error (service_error e) = get_error_of e.type e
handle_get_policy_error (other_error e) = get_policy_500 (internal_problem e)

list_error_of : ErrorType → ServiceError → ListPoliciesResponse
list_error_of ErrorType.invalid_argument e = list_policies_400 (bad_request_problem e)
list_error_of t e = list_policies_500 (internal_problem e.detail)

unfoldable pub handle_list_policies_error : AnyError → ListPoliciesResponse
unfolding list_error_of
handle_list_policies_error (service_error e) = list_error_of e.type e
handle_list_policies_error (other_error e) = list_policies_500 (internal_problem e)

update_error_of : ErrorType → ServiceError → UpdatePolicyResponse
update_error_of ErrorType.invalid_argument e = update_policy_400 (bad_request_problem e)
update_error_of ErrorType.failed_precondition e = update_policy_400 (bad_request_problem e)
update_error_of ErrorType.not_found e = update_policy_404 (not_found_problem e)
update_error_of ErrorType.already_exists e = update_policy_409 (already_exists_problem e)
update_error_of t e = update_policy_500 (internal_problem e.detail)

unfoldable pub handle_update_policy_error : AnyError → UpdatePolicyResponse
unfolding update_error_of
handle_update_policy_error (service_error e) = update_error_of e.type e
handle_update_policy_error (other_error e) = update_policy_500 (internal_problem e)

delete_error_of : ErrorType → ServiceError → DeletePolicyResponse
delete_error_of ErrorType.not_found e = delete_policy_404 (not_found_problem e)
delete_error_of t e = delete_policy_500 (internal_problem e.detail)

unfoldable pub handle_delete_policy_error : AnyError → DeletePolicyResponse
unfolding delete_error_of
handle_delete_policy_error (service_error e) = delete_error_of e.type e
handle_delete_policy_error (other_error e) = delete_policy_500 (internal_problem e)
