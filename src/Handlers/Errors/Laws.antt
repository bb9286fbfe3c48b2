-- ===== src/Handlers/Errors/Laws.antt =====
-- internal/handlers/v1alpha1/errors.go: what the responses to errors have in common.
use policy_manager.Base.{ℕ, ◌≤◌, ◌<◌, ◌≡◌, refl, Bool, true, Option, none, some, arith}
use policy_manager.Api.Server
use policy_manager.Api.Server.{
  CreatePolicyResponse, create_policy_201, create_policy_400, create_policy_409, create_policy_500,
  create_policy_401, create_policy_403, create_policy_422, GetPolicyResponse, get_policy_200,
  get_policy_404, get_policy_500, get_policy_401, get_policy_403, ListPoliciesResponse,
  list_policies_200, list_policies_400, list_policies_500, list_policies_401, list_policies_403,
  UpdatePolicyResponse, update_policy_200, update_policy_400, update_policy_404, update_policy_409,
  update_policy_500, update_policy_401, update_policy_403, DeletePolicyResponse, delete_policy_204,
  delete_policy_404, delete_policy_500, delete_policy_401, delete_policy_403,
}
use policy_manager.Service.Errors.{ErrorType, ServiceError}
use policy_manager.Handlers.Errors.{
  AnyError, service_error, other_error, is_client_type, is_client_error, create_error_of,
  handle_create_policy_error, get_error_of, handle_get_policy_error, list_error_of,
  handle_list_policies_error, update_error_of, handle_update_policy_error, delete_error_of,
  handle_delete_policy_error,
}

-- The HTTP status of a response with its body, if that is an error.
abbrev pub create_answer : CreatePolicyResponse → ℕ × Option Server.Error
create_answer (create_policy_201 location p) = (201, none)
create_answer (create_policy_400 e) = (400, some e)
create_answer (create_policy_409 e) = (409, some e)
create_answer (create_policy_500 e) = (500, some e)
create_answer (create_policy_401 e) = (401, some e)
create_answer (create_policy_403 e) = (403, some e)
create_answer (create_policy_422 e) = (422, some e)

abbrev pub get_answer : GetPolicyResponse → ℕ × Option Server.Error
get_answer (get_policy_200 p) = (200, none)
get_answer (get_policy_404 e) = (404, some e)
get_answer (get_policy_500 e) = (500, some e)
get_answer (get_policy_401 e) = (401, some e)
get_answer (get_policy_403 e) = (403, some e)

abbrev pub list_answer : ListPoliciesResponse → ℕ × Option Server.Error
list_answer (list_policies_200 l) = (200, none)
list_answer (list_policies_400 e) = (400, some e)
list_answer (list_policies_500 e) = (500, some e)
list_answer (list_policies_401 e) = (401, some e)
list_answer (list_policies_403 e) = (403, some e)

abbrev pub update_answer : UpdatePolicyResponse → ℕ × Option Server.Error
update_answer (update_policy_200 p) = (200, none)
update_answer (update_policy_400 e) = (400, some e)
update_answer (update_policy_404 e) = (404, some e)
update_answer (update_policy_409 e) = (409, some e)
update_answer (update_policy_500 e) = (500, some e)
update_answer (update_policy_401 e) = (401, some e)
update_answer (update_policy_403 e) = (403, some e)

abbrev pub delete_answer : DeletePolicyResponse → ℕ × Option Server.Error
delete_answer delete_policy_204 = (204, none)
delete_answer (delete_policy_404 e) = (404, some e)
delete_answer (delete_policy_500 e) = (500, some e)
delete_answer (delete_policy_401 e) = (401, some e)
delete_answer (delete_policy_403 e) = (403, some e)

-- An error's status, which the body repeats, and which is 4xx only for a client's error.
abbrev pub IsProblem : Bool → ℕ × Option Server.Error → Type 0
IsProblem client (n, body) =
    (problem : Server.Error) × (body ≡ some problem)
    × (problem.status ≡ n)
    × (400 ≤ n)
    × (n < 500 → client ≡ true)

create_error_of-IsProblem :
    (t : ErrorType) (e : ServiceError)
    → IsProblem (is_client_type t) (create_answer (create_error_of t e))
unfolding create_error_of is_client_type
create_error_of-IsProblem ErrorType.invalid_argument e = (_, refl, refl, omega arith, λ h. refl)
create_error_of-IsProblem ErrorType.not_found e =
    (_, refl, refl, omega arith, λ h. absurd (omega arith))
create_error_of-IsProblem ErrorType.already_exists e = (_, refl, refl, omega arith, λ h. refl)
create_error_of-IsProblem ErrorType.internal e =
    (_, refl, refl, omega arith, λ h. absurd (omega arith))
create_error_of-IsProblem ErrorType.failed_precondition e =
    (_, refl, refl, omega arith, λ h. absurd (omega arith))
create_error_of-IsProblem ErrorType.rejected e =
    (_, refl, refl, omega arith, λ h. absurd (omega arith))
create_error_of-IsProblem ErrorType.policy_conflict e =
    (_, refl, refl, omega arith, λ h. absurd (omega arith))

pub handle_create_policy_error-IsProblem :
    (e : AnyError) → IsProblem (is_client_error e) (create_answer (handle_create_policy_error e))
unfolding handle_create_policy_error is_client_error
handle_create_policy_error-IsProblem (service_error e) = create_error_of-IsProblem e.type e
handle_create_policy_error-IsProblem (other_error e) =
    (_, refl, refl, omega arith, λ h. absurd (omega arith))

get_error_of-IsProblem :
    (t : ErrorType) (e : ServiceError)
    → IsProblem (is_client_type t) (get_answer (get_error_of t e))
unfolding get_error_of is_client_type
get_error_of-IsProblem ErrorType.invalid_argument e =
    (_, refl, refl, omega arith, λ h. absurd (omega arith))
get_error_of-IsProblem ErrorType.not_found e = (_, refl, refl, omega arith, λ h. refl)
get_error_of-IsProblem ErrorType.already_exists e =
    (_, refl, refl, omega arith, λ h. absurd (omega arith))
get_error_of-IsProblem ErrorType.internal e =
    (_, refl, refl, omega arith, λ h. absurd (omega arith))
get_error_of-IsProblem ErrorType.failed_precondition e =
    (_, refl, refl, omega arith, λ h. absurd (omega arith))
get_error_of-IsProblem ErrorType.rejected e =
    (_, refl, refl, omega arith, λ h. absurd (omega arith))
get_error_of-IsProblem ErrorType.policy_conflict e =
    (_, refl, refl, omega arith, λ h. absurd (omega arith))

handle_get_policy_error-IsProblem :
    (e : AnyError) → IsProblem (is_client_error e) (get_answer (handle_get_policy_error e))
unfolding handle_get_policy_error is_client_error
handle_get_policy_error-IsProblem (service_error e) = get_error_of-IsProblem e.type e
handle_get_policy_error-IsProblem (other_error e) =
    (_, refl, refl, omega arith, λ h. absurd (omega arith))

list_error_of-IsProblem :
    (t : ErrorType) (e : ServiceError)
    → IsProblem (is_client_type t) (list_answer (list_error_of t e))
unfolding list_error_of is_client_type
list_error_of-IsProblem ErrorType.invalid_argument e = (_, refl, refl, omega arith, λ h. refl)
list_error_of-IsProblem ErrorType.not_found e =
    (_, refl, refl, omega arith, λ h. absurd (omega arith))
list_error_of-IsProblem ErrorType.already_exists e =
    (_, refl, refl, omega arith, λ h. absurd (omega arith))
list_error_of-IsProblem ErrorType.internal e =
    (_, refl, refl, omega arith, λ h. absurd (omega arith))
list_error_of-IsProblem ErrorType.failed_precondition e =
    (_, refl, refl, omega arith, λ h. absurd (omega arith))
list_error_of-IsProblem ErrorType.rejected e =
    (_, refl, refl, omega arith, λ h. absurd (omega arith))
list_error_of-IsProblem ErrorType.policy_conflict e =
    (_, refl, refl, omega arith, λ h. absurd (omega arith))

handle_list_policies_error-IsProblem :
    (e : AnyError) → IsProblem (is_client_error e) (list_answer (handle_list_policies_error e))
unfolding handle_list_policies_error is_client_error
handle_list_policies_error-IsProblem (service_error e) = list_error_of-IsProblem e.type e
handle_list_policies_error-IsProblem (other_error e) =
    (_, refl, refl, omega arith, λ h. absurd (omega arith))

update_error_of-IsProblem :
    (t : ErrorType) (e : ServiceError)
    → IsProblem (is_client_type t) (update_answer (update_error_of t e))
unfolding update_error_of is_client_type
update_error_of-IsProblem ErrorType.invalid_argument e = (_, refl, refl, omega arith, λ h. refl)
update_error_of-IsProblem ErrorType.not_found e = (_, refl, refl, omega arith, λ h. refl)
update_error_of-IsProblem ErrorType.already_exists e = (_, refl, refl, omega arith, λ h. refl)
update_error_of-IsProblem ErrorType.internal e =
    (_, refl, refl, omega arith, λ h. absurd (omega arith))
update_error_of-IsProblem ErrorType.failed_precondition e = (_, refl, refl, omega arith, λ h. refl)
update_error_of-IsProblem ErrorType.rejected e =
    (_, refl, refl, omega arith, λ h. absurd (omega arith))
update_error_of-IsProblem ErrorType.policy_conflict e =
    (_, refl, refl, omega arith, λ h. absurd (omega arith))

handle_update_policy_error-IsProblem :
    (e : AnyError) → IsProblem (is_client_error e) (update_answer (handle_update_policy_error e))
unfolding handle_update_policy_error is_client_error
handle_update_policy_error-IsProblem (service_error e) = update_error_of-IsProblem e.type e
handle_update_policy_error-IsProblem (other_error e) =
    (_, refl, refl, omega arith, λ h. absurd (omega arith))

delete_error_of-IsProblem :
    (t : ErrorType) (e : ServiceError)
    → IsProblem (is_client_type t) (delete_answer (delete_error_of t e))
unfolding delete_error_of is_client_type
delete_error_of-IsProblem ErrorType.invalid_argument e =
    (_, refl, refl, omega arith, λ h. absurd (omega arith))
delete_error_of-IsProblem ErrorType.not_found e = (_, refl, refl, omega arith, λ h. refl)
delete_error_of-IsProblem ErrorType.already_exists e =
    (_, refl, refl, omega arith, λ h. absurd (omega arith))
delete_error_of-IsProblem ErrorType.internal e =
    (_, refl, refl, omega arith, λ h. absurd (omega arith))
delete_error_of-IsProblem ErrorType.failed_precondition e =
    (_, refl, refl, omega arith, λ h. absurd (omega arith))
delete_error_of-IsProblem ErrorType.rejected e =
    (_, refl, refl, omega arith, λ h. absurd (omega arith))
delete_error_of-IsProblem ErrorType.policy_conflict e =
    (_, refl, refl, omega arith, λ h. absurd (omega arith))

handle_delete_policy_error-IsProblem :
    (e : AnyError) → IsProblem (is_client_error e) (delete_answer (handle_delete_policy_error e))
unfolding handle_delete_policy_error is_client_error
handle_delete_policy_error-IsProblem (service_error e) = delete_error_of-IsProblem e.type e
handle_delete_policy_error-IsProblem (other_error e) =
    (_, refl, refl, omega arith, λ h. absurd (omega arith))

-- Each handler of the policy API answers each error with a status of 400 or more, the body repeats the
-- status, and the status is below 500 only for an error that is logged as the client's.
pub handle_policy_error-IsProblem :
    (e : AnyError)
    → IsProblem (is_client_error e) (create_answer (handle_create_policy_error e))
      × IsProblem (is_client_error e) (get_answer (handle_get_policy_error e))
      × IsProblem (is_client_error e) (list_answer (handle_list_policies_error e))
      × IsProblem (is_client_error e) (update_answer (handle_update_policy_error e))
      × IsProblem (is_client_error e) (delete_answer (handle_delete_policy_error e))
handle_policy_error-IsProblem e = (
  handle_create_policy_error-IsProblem e,
  handle_get_policy_error-IsProblem e,
  handle_list_policies_error-IsProblem e,
  handle_update_policy_error-IsProblem e,
  handle_delete_policy_error-IsProblem e,
)
