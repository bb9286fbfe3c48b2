-- ===== src/Handlers/Evaluation.antt =====
-- internal/handlers/engine: the handler of the engine API, over the evaluation service.
pub mod Laws
pub mod Statuses
pub mod Service
pub mod Whole
use policy_manager.Base.{
  ℕ, Bool, true, false, String, Option, none, some, Result, ok, err, ◌>>=◌, [], map_err,
}
use policy_manager.Base.Dict.{Dict, insert}
use policy_manager.Json.{Value, Object, empty, field, get, as_string, nested_object}
use policy_manager.Api.Engine
use policy_manager.Api.Engine.{
  EvaluateRequest, EvaluateResponse, EvaluateRequestResponse, evaluate_request_200,
  evaluate_request_400, evaluate_request_406, evaluate_request_409, evaluate_request_500,
}
use policy_manager.Service.Errors.{
  ErrorType, ServiceError, rejected, policy_conflict, invalid_argument,
}
use policy_manager.Service.Evaluation.{EvaluationRequest, EvaluationResponse}
use policy_manager.Handlers.Errors.{AnyError, service_error, other_error}

is_client_type : ErrorType → Bool
is_client_type ErrorType.invalid_argument = true
is_client_type ErrorType.rejected = true
is_client_type ErrorType.policy_conflict = true
is_client_type t = false

unfoldable pub is_client_error : AnyError → Bool
unfolding is_client_type
is_client_error (service_error e) = is_client_type e.type
is_client_error (other_error e) = false

-- The body that the four helpers build; its type is always "about:blank".
abbrev pub problem : ℕ → String → String → Engine.Error
problem status title detail = record {
  detail = some detail;
  status = status;
  title = title;
  type = "about:blank";
}

-- One turn of the loop over the labels: a value that is not a string is passed over.
add_label : String → Option String → Dict String → Dict String
add_label k none result = result
add_label k (some v) result = insert k v result

module _ {F : Type 0} where
  abbrev pub bad_request : String → EvaluateRequestResponse F
  bad_request message = evaluate_request_400 (problem 400 "Bad Request" message)

  abbrev pub not_acceptable : String → String → EvaluateRequestResponse F
  not_acceptable title detail = evaluate_request_406 (problem 406 title detail)

  abbrev pub conflict : String → String → EvaluateRequestResponse F
  conflict title detail = evaluate_request_409 (problem 409 title detail)

  abbrev pub internal_error : String → String → EvaluateRequestResponse F
  internal_error title detail = evaluate_request_500 (problem 500 title detail)

  error_of : ErrorType → ServiceError → EvaluateRequestResponse F
  error_of ErrorType.rejected e = not_acceptable e.message e.detail
  error_of ErrorType.policy_conflict e = conflict e.message e.detail
  error_of ErrorType.invalid_argument e = bad_request e.message
  error_of t e = internal_error "Internal server error" "An unexpected error occurred"

  unfoldable pub handle_error : AnyError → EvaluateRequestResponse F
  unfolding error_of
  handle_error (service_error e) = error_of e.type e
  handle_error (other_error e) =
      internal_error "Internal server error" "An unexpected error occurred"

  add_labels : Object F → Dict String → Dict String
  unfolding add_label
  add_labels empty result = result
  add_labels (field k v labels) result = add_labels labels (add_label k (as_string v) result)

  labels_of : Option (Object F) → Dict String → Dict String
  unfolding add_labels
  labels_of none result = result
  labels_of (some labels) result = add_labels labels result

  metadata_of : Option (Object F) → Dict String → Dict String
  unfolding labels_of
  metadata_of none result = result
  metadata_of (some metadata) result = labels_of (nested_object (get "labels" metadata)) result

  unfoldable pub string_field : Option (Value F) → Option String
  string_field none = none
  string_field (some v) = as_string v

  request_labels_of : Option String → Object F → Result String (Dict String)
  unfolding metadata_of
  request_labels_of none spec = err "service type is required"
  request_labels_of (some service_type) spec =
      ok (metadata_of (nested_object (get "metadata" spec)) (insert "service_type" service_type []))

  unfoldable pub extract_request_labels : Object F → Result String (Dict String)
  unfolding request_labels_of string_field
  extract_request_labels spec = request_labels_of (string_field (get "service_type" spec)) spec

  unfoldable pub to_service_evaluation_request :
      EvaluateRequest F → Result String (EvaluationRequest F)
  to_service_evaluation_request request =
      extract_request_labels request.service_instance.spec >>= λ request_labels.
      ok (record {
        service_instance = request.service_instance.spec;
        request_labels = request_labels;
      })

  unfoldable pub to_engine_evaluation_response : EvaluationResponse F → EvaluateResponse F
  to_engine_evaluation_response response = record {
    evaluated_service_instance = record { spec = response.evaluated_service_instance };
    selected_provider = response.selected_provider;
    status = response.status;
  }

  abbrev pub response_to : Result AnyError (EvaluationResponse F) → EvaluateRequestResponse F
  response_to (err e) = handle_error e
  response_to (ok response) = evaluate_request_200 (to_engine_evaluation_response response)

  answer_returned :
      Option (Result AnyError (EvaluationResponse F)) → Option (EvaluateRequestResponse F)
  answer_returned none = none
  answer_returned (some r) = some (response_to r)

  -- `service` is the EvaluateRequest of the evaluation service; `none` is that it does not return.
  module _ (service : EvaluationRequest F → Option (Result AnyError (EvaluationResponse F))) where
    evaluate_converted : Result String (EvaluationRequest F) → Option (EvaluateRequestResponse F)
    unfolding answer_returned
    evaluate_converted (err e) = some (bad_request e)
    evaluate_converted (ok req) = answer_returned (service req)

    unfoldable pub evaluate_request : EvaluateRequest F → Option (EvaluateRequestResponse F)
    unfolding evaluate_converted
    evaluate_request request = evaluate_converted (to_service_evaluation_request request)
