-- ===== src/Service/Errors.antt =====
-- internal/service/errors.go: the errors of the service layer.
pub mod Mapping
use policy_manager.Base.{String, Option, none, some, List, [], ◌∷◌, map}
use policy_manager.Base.Text.{sprintf, join}

pub data ErrorType : Type 0 where
  invalid_argument not_found already_exists internal failed_precondition rejected policy_conflict :
      ErrorType

-- `cause` is the text of the wrapped error, `Err`.
pub record ServiceError : Type 0 where
  pub type : ErrorType
  pub message : String
  pub detail : String
  pub cause : Option String

unfoldable pub error_type_text : ErrorType → String
error_type_text invalid_argument = "INVALID_ARGUMENT"
error_type_text not_found = "NOT_FOUND"
error_type_text already_exists = "ALREADY_EXISTS"
error_type_text internal = "INTERNAL"
error_type_text failed_precondition = "FAILED_PRECONDITION"
error_type_text rejected = "REJECTED"
error_type_text policy_conflict = "POLICY_CONFLICT"

-- `(*ServiceError).Error`
unfoldable pub error_text : ServiceError → String
unfolding error_type_text
error_text e = elim e.cause [
  | some c ↦ sprintf (error_type_text e.type ∷ ": " ∷ e.message ∷ " (caused by: " ∷ c ∷ ")" ∷ [])
  | none ↦ sprintf (error_type_text e.type ∷ ": " ∷ e.message ∷ [])
]

unfoldable pub new_invalid_argument_error : String → String → ServiceError
new_invalid_argument_error message detail = record {
  type = invalid_argument;
  message = message;
  detail = detail;
  cause = none;
}

unfoldable pub new_not_found_error : String → String → ServiceError
new_not_found_error message detail = record {
  type = not_found;
  message = message;
  detail = detail;
  cause = none;
}

unfoldable pub new_policy_not_found_error : String → ServiceError
unfolding new_not_found_error
new_policy_not_found_error policy_id =
    new_not_found_error "Policy not found"
      (sprintf ("Policy with ID '" ∷ policy_id ∷ "' does not exist" ∷ []))

unfoldable pub new_already_exists_error : String → String → ServiceError
new_already_exists_error message detail = record {
  type = already_exists;
  message = message;
  detail = detail;
  cause = none;
}

unfoldable pub new_policy_already_exists_error : String → ServiceError
unfolding new_already_exists_error
new_policy_already_exists_error policy_id =
    new_already_exists_error "Policy already exists"
      (sprintf ("A policy with ID '" ∷ policy_id ∷ "' already exists" ∷ []))

unfoldable pub new_policy_display_name_policy_type_taken_error : String → String → ServiceError
unfolding new_already_exists_error
new_policy_display_name_policy_type_taken_error display_name policy_type =
    new_already_exists_error "Policy display name and policy type already exists" (
      sprintf (
        "A policy with display name '" ∷ display_name ∷ "' and policy type '" ∷ policy_type
        ∷ "' already exists" ∷ []))

-- The priority comes as its decimal text.
unfoldable pub new_policy_priority_policy_type_taken_error : String → String → ServiceError
unfolding new_already_exists_error
new_policy_priority_policy_type_taken_error priority policy_type =
    new_already_exists_error "Policy priority and policy type already exists" (
      sprintf (
        "A policy with priority '" ∷ priority ∷ "' and policy type '" ∷ policy_type
        ∷ "' already exists" ∷ []))

unfoldable pub new_internal_error : String → String → Option String → ServiceError
new_internal_error message detail cause = record {
  type = internal;
  message = message;
  detail = detail;
  cause = cause;
}

unfoldable pub new_failed_precondition_error : String → String → ServiceError
new_failed_precondition_error message detail = record {
  type = failed_precondition;
  message = message;
  detail = detail;
  cause = none;
}

unfoldable pub new_policy_rejected_error : String → String → ServiceError
new_policy_rejected_error policy_id reason = record {
  type = rejected;
  message = sprintf ("Request rejected by policy '" ∷ policy_id ∷ "'" ∷ []);
  detail = reason;
  cause = none;
}

unfoldable pub new_policy_conflict_error : String → String → String → ServiceError
new_policy_conflict_error lower_policy_id name higher_policy_id = record {
  type = policy_conflict;
  message = sprintf (
      "Policy '" ∷ lower_policy_id ∷ "' attempted to modify field '" ∷ name
      ∷ "' which was set by higher-priority policy '" ∷ higher_policy_id ∷ "'" ∷ []);
  detail = sprintf (
      "Field '" ∷ name ∷ "' is immutable after being set by policy '" ∷ higher_policy_id ∷ "'"
      ∷ []);
  cause = none;
}

pub record ConstraintViolation : Type 0 where
  pub field_path : String
  pub reason : String
  pub set_by_policy : String

violation_text : ConstraintViolation → String
violation_text v = sprintf (
    "field '" ∷ v.field_path ∷ "': " ∷ v.reason ∷ " (constrained by policy '" ∷ v.set_by_policy
    ∷ "')" ∷ [])

unfoldable pub new_constraint_violation_error : String → List ConstraintViolation → ServiceError
unfolding violation_text
new_constraint_violation_error policy_id violations = record {
  type = policy_conflict;
  message = sprintf (
      "Policy '" ∷ policy_id
      ∷ "' produced values that violate constraints set by higher-priority policies" ∷ []);
  detail = sprintf ("Constraint violations: " ∷ join "; " (map violation_text violations) ∷ []);
  cause = none;
}

unfoldable pub new_constraint_conflict_error : String → String → String → String → ServiceError
new_constraint_conflict_error policy_id field_path existing_policy_id reason = record {
  type = policy_conflict;
  message = sprintf (
      "Policy '" ∷ policy_id ∷ "' attempted to loosen constraint on field '" ∷ field_path
      ∷ "' set by higher-priority policy '" ∷ existing_policy_id ∷ "'" ∷ []);
  detail = reason;
  cause = none;
}

unfoldable pub new_service_provider_constraint_error : String → String → ServiceError
new_service_provider_constraint_error policy_id detail = record {
  type = policy_conflict;
  message =
      sprintf
        ("Policy '" ∷ policy_id ∷ "' selected a service provider that violates constraints" ∷ []);
  detail = detail;
  cause = none;
}
