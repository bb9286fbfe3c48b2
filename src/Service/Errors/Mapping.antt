-- ===== src/Service/Errors/Mapping.antt =====
-- internal/service/errors.go, `processPolicyStoreError`, and internal/service/engine_errors.go.
use policy_manager.Base.{String, some, [], ◌∷◌}
use policy_manager.Base.Int.{ℤ}
use policy_manager.Base.Text.{sprintf}
use policy_manager.Opa.Engine.{EngineError, invalid_rego, engine_error_text}
use policy_manager.Store.Model.{Policy}
use policy_manager.Store.Interface.{
  StoreError, policy_not_found, policy_id_taken, display_name_policy_type_taken,
  priority_policy_type_taken, record_not_found, database_error,
}
use policy_manager.Service.Errors.{
  ServiceError, new_policy_already_exists_error, new_policy_display_name_policy_type_taken_error,
  new_policy_priority_policy_type_taken_error, new_policy_not_found_error, new_internal_error,
  new_invalid_argument_error,
}

-- `decimal` is the verb %d.
unfoldable pub process_policy_store_error :
    (ℤ → String) → StoreError → Policy → String → ServiceError
process_policy_store_error decimal policy_id_taken db_policy operation =
    new_policy_already_exists_error db_policy.id
process_policy_store_error decimal display_name_policy_type_taken db_policy operation =
    new_policy_display_name_policy_type_taken_error db_policy.display_name db_policy.policy_type
process_policy_store_error decimal priority_policy_type_taken db_policy operation =
    new_policy_priority_policy_type_taken_error (decimal db_policy.priority) db_policy.policy_type
process_policy_store_error decimal policy_not_found db_policy operation =
    new_policy_not_found_error db_policy.id
process_policy_store_error decimal record_not_found db_policy operation =
    new_policy_not_found_error db_policy.id
process_policy_store_error decimal (database_error e) db_policy operation =
    new_internal_error (sprintf ("Failed to " ∷ operation ∷ " policy" ∷ [])) e (some e)

-- `handleEngineError`, of an error that is not nil.
unfoldable pub handle_engine_error : String → EngineError → ServiceError
handle_engine_error operation (invalid_rego e) =
    new_invalid_argument_error "Invalid Rego code"
      (sprintf ("The Rego code contains syntax errors: " ∷ engine_error_text (invalid_rego e) ∷ []))
handle_engine_error operation e =
    new_internal_error (sprintf ("Policy engine error during " ∷ operation ∷ []))
      "An unexpected error occurred in the policy engine" (some (engine_error_text e))
