-- ===== src/Store/Interface.antt =====
-- internal/store/policy.go: the interface `Policy` and the errors of its operations. `D` is the
-- database's state; an operation that writes returns the state that it leaves.
use policy_manager.Base.{String, List, Result}
use policy_manager.Store.Model.{Policy, PolicyListOptions, PolicyListResult}

-- The four errors of the store, gorm.ErrRecordNotFound, and any other with its text.
pub data StoreError : Type 0 where
  policy_not_found policy_id_taken display_name_policy_type_taken priority_policy_type_taken
        record_not_found :
      StoreError
  database_error : String → StoreError

unfoldable pub store_error_text : StoreError → String
store_error_text policy_not_found = "policy not found"
store_error_text policy_id_taken = "policy ID already taken"
store_error_text display_name_policy_type_taken =
    "display_name and policy_type combination already taken"
store_error_text priority_policy_type_taken = "priority and policy_type combination already taken"
store_error_text record_not_found = "record not found"
store_error_text (database_error e) = e

pub record PolicyStore (D : Type 0) : Type 0 where
  pub list : PolicyListOptions → D → Result StoreError PolicyListResult
  pub list_all : D → Result StoreError (List Policy)
  pub create : Policy → D → Result StoreError Policy × D
  pub delete : String → D → Result StoreError (Unit {0}) × D
  pub update : Policy → D → Result StoreError Policy × D
  pub get : String → D → Result StoreError Policy
