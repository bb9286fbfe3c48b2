-- ===== src/Service/Policies/Operations.antt =====
-- internal/service/policy.go: the operations of the policy service over a store and an engine. Each
-- takes the world, the database and the engine, and returns its result with the world that it leaves.
pub mod Laws
pub mod Updates
pub mod Deletes
pub mod Stored
pub mod Overlap
use policy_manager.Base.{
  ℕ, Bool, true, false, String, Option, none, some, List, [], ◌∷◌, map, Result, ok, err, ◌>>=◌,
  map_err, if◌then◌else◌,
}
use policy_manager.Base.Int.{ℤ}
use policy_manager.Base.Text.{sprintf}
use policy_manager.Opa.Engine.{
  Rego, PolicyModule, EmbeddedEngine, compile, validate_rego, engine_error_text,
}
use policy_manager.Api.Types
use policy_manager.Store.Model
use policy_manager.Store.Interface.{PolicyStore, StoreError, policy_not_found, store_error_text}
use policy_manager.Service.Errors.{ServiceError, new_policy_not_found_error, new_internal_error}
use policy_manager.Service.Errors.Mapping.{process_policy_store_error, handle_engine_error}
use policy_manager.Service.Converter.{or_default, api_to_db_model, db_to_api_model}
use policy_manager.Service.Policies.Validation.{
  validate_post_input, validate_patch_input, validate_patch_immutable_fields,
  merge_policy_onto_policy,
}
use policy_manager.Service.Policies.Identifiers.{get_policy_id}

pub record World (D Q : Type 0) : Type 0 where
  pub db : D
  pub engine : EmbeddedEngine Q

abbrev pub module_of : Model.Policy → PolicyModule
module_of p = record { id = p.id; rego_code = p.rego_code }

-- `err.Error()` on what a read of one policy returns, or its absence.
unfoldable pub read_error : String → String → StoreError → ServiceError
read_error message id policy_not_found = new_policy_not_found_error id
read_error message id e =
    new_internal_error message (store_error_text e) (some (store_error_text e))

-- `regoChanged`
unfoldable pub changed_rego : Option Types.Policy → Option String
changed_rego none = none
changed_rego (some patch) = patch.rego_code

-- `decimal` is the verb %d.
module _ {D F K Q : Type 0} (store : PolicyStore D) (rego : Rego F K Q) (decimal : ℤ → String) where
  recompile_rows :
      World D Q → Result StoreError (List Model.Policy) → Result String (Unit {0}) × World D Q
  recompile_rows w (err e) =
      (err (sprintf ("failed to list policies for recompilation: " ∷ store_error_text e ∷ [])), w)
  recompile_rows w (ok all_policies) =
      let compiled = compile rego (map module_of all_policies) w.engine in
      (map_err engine_error_text compiled.0, record w { engine = compiled.1 })

  -- `recompileEngine` and `CompileAll`, with the text of the error.
  unfoldable pub recompile_engine : World D Q → Result String (Unit {0}) × World D Q
  unfolding recompile_rows
  recompile_engine w = recompile_rows w (store.list_all w.db)

  -- The row is written; a recompilation that fails deletes it again.
  after_create :
      Model.Policy
      → String
      → Result String (Unit {0}) × World D Q
      → Result ServiceError Types.Policy × World D Q
  after_create created policy_id (ok u, w) = (ok (db_to_api_model created), w)
  after_create created policy_id (err e, w) = (
    err (new_internal_error "Failed to compile policies after create" e (some e)),
    record w { db = (store.delete policy_id w.db).1 },
  )

  create_row :
      Model.Policy
      → World D Q
      → Result StoreError Model.Policy × D
      → Result ServiceError Types.Policy × World D Q
  unfolding after_create
  create_row db_policy w (err e, db) =
      (err (process_policy_store_error decimal e db_policy "create"), record w { db = db })
  create_row db_policy w (ok created, db) =
      after_create created db_policy.id (recompile_engine (record w { db = db }))

  -- The checks before the database is touched, and the identifier.
  check_new : String → Types.Policy → Option String → Result ServiceError String
  check_new uuid policy client_id = do
    checked ← validate_post_input policy
    policy_id ← get_policy_id uuid client_id
    parsed ←
        map_err (handle_engine_error "create") (validate_rego rego (or_default "" policy.rego_code))
    ok policy_id

  create_checked :
      Types.Policy
      → World D Q
      → Result ServiceError String
      → Result ServiceError Types.Policy × World D Q
  unfolding create_row
  create_checked policy w (err e) = (err e, w)
  create_checked policy w (ok policy_id) =
      create_row (api_to_db_model policy policy_id) w
        (store.create (api_to_db_model policy policy_id) w.db)

  -- `uuid` is the text of the UUID that the server would generate.
  unfoldable pub create_policy :
      String
      → Types.Policy
      → Option String
      → World D Q
      → Result ServiceError Types.Policy × World D Q
  unfolding check_new create_checked
  create_policy uuid policy client_id w = create_checked policy w (check_new uuid policy client_id)

  unfoldable pub get_policy : String → World D Q → Result ServiceError Types.Policy
  get_policy id w =
      map_err (read_error "Failed to get policy" id) (store.get id w.db) >>= λ db_policy.
      ok (db_to_api_model db_policy)

  -- The row is written; a recompilation that fails writes the previous row again.
  after_update :
      Model.Policy
      → Model.Policy
      → Result String (Unit {0}) × World D Q
      → Result ServiceError Types.Policy × World D Q
  after_update updated previous_db (ok u, w) = (ok (db_to_api_model updated), w)
  after_update updated previous_db (err e, w) = (
    err (new_internal_error "Failed to compile policies after update" e (some e)),
    record w { db = (store.update previous_db w.db).1 },
  )

  -- The engine is recompiled if the patch has Rego code.
  written_row :
      Option String
      → Model.Policy
      → Model.Policy
      → World D Q
      → Result ServiceError Types.Policy × World D Q
  unfolding after_update
  written_row none updated previous_db w = (ok (db_to_api_model updated), w)
  written_row (some code) updated previous_db w =
      after_update updated previous_db (recompile_engine w)

  update_row :
      Option Types.Policy
      → Model.Policy
      → Model.Policy
      → World D Q
      → Result StoreError Model.Policy × D
      → Result ServiceError Types.Policy × World D Q
  unfolding written_row
  update_row patch previous_db db_policy w (err e, db) =
      (err (process_policy_store_error decimal e db_policy "update"), record w { db = db })
  update_row patch previous_db db_policy w (ok updated, db) =
      written_row (changed_rego patch) updated previous_db (record w { db = db })

  check_rego : Option String → Result ServiceError (Unit {0})
  check_rego none = ok tt
  check_rego (some code) = map_err (handle_engine_error "update") (validate_rego rego code)

  -- The checks of the patch, and the stored row that it is for.
  check_patch : String → Option Types.Policy → D → Result ServiceError Model.Policy
  unfolding check_rego
  check_patch id patch db = do
    checked ← validate_patch_input patch
    existing_db ← map_err (read_error "Failed to get existing policy" id) (store.get id db)
    fixed ← validate_patch_immutable_fields patch (db_to_api_model existing_db)
    parsed ← check_rego (changed_rego patch)
    ok existing_db

  -- The row that an update writes.
  merged_row : String → Option Types.Policy → Model.Policy → Model.Policy
  merged_row id patch existing_db =
      api_to_db_model (merge_policy_onto_policy patch (db_to_api_model existing_db)) id

  update_checked :
      String
      → Option Types.Policy
      → World D Q
      → Result ServiceError Model.Policy
      → Result ServiceError Types.Policy × World D Q
  unfolding update_row merged_row
  update_checked id patch w (err e) = (err e, w)
  update_checked id patch w (ok existing_db) =
      update_row patch existing_db (merged_row id patch existing_db) w
        (store.update (merged_row id patch existing_db) w.db)

  unfoldable pub update_policy :
      String → Option Types.Policy → World D Q → Result ServiceError Types.Policy × World D Q
  unfolding check_patch update_checked
  update_policy id patch w = update_checked id patch w (check_patch id patch w.db)

  -- A recompilation that fails after a deletion is logged only.
  delete_row :
      String
      → World D Q
      → Result StoreError (Unit {0}) × D
      → Result ServiceError (Unit {0}) × World D Q
  delete_row id w (err e, db) =
      (err (read_error "Failed to delete policy" id e), record w { db = db })
  delete_row id w (ok u, db) = (ok tt, (recompile_engine (record w { db = db })).1)

  unfoldable pub delete_policy : String → World D Q → Result ServiceError (Unit {0}) × World D Q
  unfolding delete_row
  delete_policy id w = delete_row id w (store.delete id w.db)
