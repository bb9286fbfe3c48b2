-- ===== src/Store/Policies/Errors.antt =====
-- internal/store/policy.go: `mapUniqueConstraintError`.
pub mod Laws
use policy_manager.Base.{
  Bool, true, false, ◌||◌, String, List, [], ◌∷◌, ◌++◌, Result, ok, err, is_some, if◌then◌else◌,
}
use policy_manager.Base.Text.{contains_text}
use policy_manager.Store.Model.{Policy}
use policy_manager.Store.Interface.{
  StoreError, policy_id_taken, display_name_policy_type_taken, priority_policy_type_taken,
  record_not_found, database_error,
}
use policy_manager.Store.Database.{
  Condition, id_is, id_is_not, display_name_and_type_are, priority_and_type_are, DatabaseError,
  not_found, duplicated_key, other_error, Database,
}

-- `err.Error()`
abbrev pub database_error_text : DatabaseError → String
database_error_text not_found = "record not found"
database_error_text duplicated_key = "duplicated key not allowed"
database_error_text (other_error e) = e

-- A database error that is passed on.
unfoldable pub raw : DatabaseError → StoreError
raw not_found = record_not_found
raw e = database_error (database_error_text e)

-- The three checks in their order, each with its sentinel.
unfoldable pub checks : Policy → List (StoreError × Condition)
checks attempted =
    (policy_id_taken, id_is attempted.id)
    ∷ (
      display_name_policy_type_taken,
      display_name_and_type_are attempted.display_name attempted.policy_type,
    )
    ∷ (priority_policy_type_taken, priority_and_type_are attempted.priority attempted.policy_type)
    ∷ []

-- An update does not collide with its own row.
abbrev pub not_self : Policy → Bool → List Condition
not_self attempted true = id_is_not attempted.id ∷ []
not_self attempted false = []

-- `strings.ToLower` is `to_lower`.
module _ {D : Type 0} (db : Database D) (to_lower : String → String) where
  unfoldable pub is_unique_violation : DatabaseError → Bool
  is_unique_violation duplicated_key = true
  is_unique_violation e =
      contains_text (to_lower (database_error_text e)) "unique"
      || contains_text (database_error_text e) "duplicate key"

  -- What a check tells from its query; `rest` is the checks after it.
  check_result : StoreError → StoreError → StoreError → Result DatabaseError Policy → StoreError
  check_result error sentinel rest (ok row) = sentinel
  check_result error sentinel rest (err not_found) = rest
  check_result error sentinel rest (err e) = error

  unfoldable pub run_checks :
      StoreError → List Condition → List (StoreError × Condition) → D → StoreError
  unfolding check_result
  run_checks error others [] d = error
  run_checks error others ((sentinel, condition) ∷ rest) d =
      check_result error sentinel (run_checks error others rest d) (db.first (condition ∷ others) d)

  unfoldable pub map_unique_constraint_error : DatabaseError → Policy → Bool → D → StoreError
  unfolding is_unique_violation run_checks checks
  map_unique_constraint_error error attempted is_update d =
      if is_unique_violation error
      then run_checks (raw error) (not_self attempted is_update) (checks attempted) d
      else raw error
