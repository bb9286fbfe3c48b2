-- ===== src/Examples/Server.antt =====
-- The server as a whole at concrete values: two databases in memory, and calls of both APIs.
use policy_manager.Base.{
  ℕ, suc, ◌+◌, ◌*◌, ◌≤◌, ◌<◌, ◌^◌, ◌≡◌, refl, ◌↔◌, true, false, String, Option, none, some, List,
  [], ◌∷◌, length, is_some, ok, arith,
}
use policy_manager.Base.Int.{ℤ}
use policy_manager.Base.Dict.{Dict, lookup, insert}
use policy_manager.Json.{Object, str, obj, empty, field, get}
use policy_manager.Opa.Engine.{EmbeddedEngine, compile}
use policy_manager.Api.Server
use policy_manager.Api.Server.{CreatePolicyResponse}
use policy_manager.Api.Engine.{EvaluateRequest, EvaluateRequestResponse}
use policy_manager.Store.Model.{Policy}
use policy_manager.Store.Database.Relational.{select, meets, meets_all}
use policy_manager.Store.Policies.{new_policy, list_all}
use policy_manager.Service.Evaluation.{EvaluationRequest}
use policy_manager.Service.Evaluation.Request.Complete.{list_enabled, enabled_policies}
use policy_manager.Service.Errors.{rejected}
use policy_manager.Service.Policies.Operations.{World, recompile_engine}
use policy_manager.Service.Policies.Operations.Laws.{InSync}
use policy_manager.Service.Policies.Operations.Updates.{IsTable}
use policy_manager.Service.Policies.Operations.Deletes.{LeavesCompiling}
use policy_manager.Service.Policies.Operations.Stored.{
  new_policy-IsTransactional, new_policy-IsTable,
}
use policy_manager.Handlers.Conversions.{policy_v1_alpha1_to_server}
use policy_manager.Handlers.Errors.{
  AnyError, service_error, is_client_error, handle_create_policy_error, handle_get_policy_error,
  handle_list_policies_error, handle_update_policy_error, handle_delete_policy_error,
}
use policy_manager.Handlers.Errors.Laws.{
  IsProblem, create_answer, get_answer, list_answer, update_answer, delete_answer,
  handle_policy_error-IsProblem,
}
use policy_manager.Handlers.Policies.{create_policy, update_policy, delete_policy}
use policy_manager.Handlers.Policies.Laws.{api, IsCreation, create_policy-IsCreation}
use policy_manager.Handlers.Policies.Reached.{
  Reached, Holds, started, change, deletion, new_policy-InSync, Reached-compiled,
}
use policy_manager.Handlers.Evaluation.{string_field, extract_request_labels}
use policy_manager.Handlers.Evaluation
use policy_manager.Handlers.Evaluation.Service.{evaluation_service}
use policy_manager.Handlers.Evaluation.Laws.{label_of, extract_request_labels-label_of}
use policy_manager.Handlers.Evaluation.Statuses.{status, evaluate_request-400}
use policy_manager.Handlers.Evaluation.Whole.{response_of, evaluate_request-response_of}
use policy_manager.Examples.Setup.{go, go-Copies, js, rego}
use policy_manager.Examples.Database.{
  rows_database, rows_database-IsRelational, row_database, row_database-IsRelational,
  row_database-IsWritable,
}
use policy_manager.Examples.Policies.{row}
use policy_manager.Examples.Policies

abbrev same_text : String → String
same_text s = s

abbrev engine : EmbeddedEngine String
engine = record { queries = ("deny-all", "aws") ∷ [] }

abbrev rows : List Policy
rows = row ∷ record row { id = "second"; enabled = false } ∷ []

abbrev spec : Object ℕ
spec =
    field "service_type" (str "vm")
      (field "metadata" (obj (field "labels" (obj (field "env" (str "prod") empty)) empty)) empty)

abbrev request : EvaluationRequest ℕ
request = record { service_instance = spec; request_labels = ("service_type", "vm") ∷ [] }

one_enabled :
    length
      (enabled_policies go js rego engine rows_database same_text rows_database-IsRelational rows)
    ≡ 1
unfolding select meets meets_all
one_enabled = refl

abbrev enabled_rows : List Policy
enabled_rows =
    enabled_policies go js rego engine rows_database same_text rows_database-IsRelational rows

few : length enabled_rows + 1001 < 2 ^ 63
few = rw one_enabled (omega arith)

one_page : length enabled_rows ≤ 1000 * suc 0
one_page = rw one_enabled (omega arith)

abbrev http_request : EvaluateRequest ℕ
http_request = record { service_instance = record { spec = spec } }

evaluate_request-response_of_example :
    Evaluation.evaluate_request
      (evaluation_service go js rego engine
        (list_enabled go js rego engine rows_database same_text rows_database-IsRelational rows)
        1)
      http_request
    ≡ some (
        response_of go js rego engine rows_database same_text rows_database-IsRelational rows spec
          (extract_request_labels spec))
evaluate_request-response_of_example =
    evaluate_request-response_of go js rego engine rows_database same_text
      rows_database-IsRelational rows 0 http_request go-Copies few one_page

-- A request without a service type, which is answered without the store.
abbrev untyped : EvaluateRequest ℕ
untyped = record { service_instance = record { spec = empty } }

abbrev refusal : EvaluateRequestResponse ℕ
refusal = Evaluation.bad_request "service type is required"

untyped_refused :
    Evaluation.evaluate_request
      (evaluation_service go js rego engine
        (list_enabled go js rego engine rows_database same_text rows_database-IsRelational rows)
        1)
      untyped
    ≡ some refusal
unfolding Evaluation.evaluate_request Evaluation.to_service_evaluation_request
    extract_request_labels get
untyped_refused = refl

evaluate_request-400_example :
    (status refusal ≡ 400) ↔ (string_field (get {F = ℕ} "service_type" empty) ≡ none)
evaluate_request-400_example =
    evaluate_request-400 go js rego engine
      (list_enabled go js rego engine rows_database same_text rows_database-IsRelational rows) 1
      untyped refusal untyped_refused

spec_labelled : extract_request_labels spec ≡ ok (("service_type", "vm") ∷ ("env", "prod") ∷ [])
unfolding extract_request_labels get string_field insert
spec_labelled = refl

abbrev labels : Dict String
labels = ("service_type", "vm") ∷ ("env", "prod") ∷ []

extract_request_labels-label_of_example :
    (s : String) × (string_field (get "service_type" spec) ≡ some s)
    × (lookup "env" labels ≡ label_of s "env" spec)
unfolding get
extract_request_labels-label_of_example =
    extract_request_labels-label_of spec labels "env" (refl, tt) spec_labelled

abbrev unexpected : AnyError
unexpected =
    service_error (record { type = rejected; message = "no"; detail = "none"; cause = none })

handle_policy_error-IsProblem_example :
    IsProblem (is_client_error unexpected) (create_answer (handle_create_policy_error unexpected))
    × IsProblem (is_client_error unexpected) (get_answer (handle_get_policy_error unexpected))
    × IsProblem (is_client_error unexpected) (list_answer (handle_list_policies_error unexpected))
    × IsProblem (is_client_error unexpected) (update_answer (handle_update_policy_error unexpected))
    × IsProblem (is_client_error unexpected) (delete_answer (handle_delete_policy_error unexpected))
handle_policy_error-IsProblem_example = handle_policy_error-IsProblem unexpected

new_policy-IsTable_example : IsTable (new_policy row_database same_text)
new_policy-IsTable_example =
    new_policy-IsTable row_database same_text row_database-IsRelational row_database-IsWritable

abbrev decimal : ℤ → String
decimal z = "10"

abbrev body : Server.Policy
body = policy_v1_alpha1_to_server Policies.new_policy

abbrev empty_world : World (Option Policy) String
empty_world = record { db = none; engine = record { queries = [] } }

create_policy-IsCreation_example :
    IsCreation (new_policy row_database same_text) rego decimal same_text (some body) empty_world (
      create_policy
        (api (new_policy row_database same_text) rego decimal same_text "0f")
        (some body)
        (some "deny-all")
        empty_world)
create_policy-IsCreation_example =
    create_policy-IsCreation (new_policy row_database same_text) rego decimal same_text "0f"
      (some body) (some "deny-all") empty_world
      (new_policy-IsTransactional row_database same_text row_database-IsRelational
        row_database-IsWritable)

-- A server that has started over a table with one row.
abbrev world : World (Option Policy) String
world = record { db = some row; engine = record { queries = [] } }

abbrev started_world : World (Option Policy) String
started_world =
    ((api (new_policy row_database same_text) rego decimal same_text "").compile_all world).1

compiled_at_start :
    ((api (new_policy row_database same_text) rego decimal same_text "").compile_all world).0
    ≡ ok tt
unfolding recompile_engine compile list_all select meets_all
compiled_at_start = refl

started-Reached : Reached (new_policy row_database same_text) rego decimal same_text started_world
started-Reached = started world compiled_at_start

-- It has then raised the priority of the row.
new_policy-InSync_example :
    InSync
      (new_policy row_database same_text)
      rego
      decimal
      (update_policy
        (api (new_policy row_database same_text) rego decimal same_text "")
        "deny-all"
        (some (policy_v1_alpha1_to_server Policies.raise_priority))
        started_world).1
new_policy-InSync_example =
    new_policy-InSync row_database same_text row_database-IsRelational row_database-IsWritable rego
      decimal same_text _
      (change "deny-all" (some (policy_v1_alpha1_to_server Policies.raise_priority)) started_world
        started-Reached)

-- Or it has deleted the row.
abbrev deleted_world : World (Option Policy) String
deleted_world =
    (delete_policy (api (new_policy row_database same_text) rego decimal same_text "") "deny-all"
      started_world).1

rest_compiles :
    LeavesCompiling (new_policy row_database same_text) rego decimal "deny-all" started_world
unfolding recompile_engine compile list_all select meets_all meets
    policy_manager.Store.Policies.delete
rest_compiles h = refl

Reached-compiled_example :
    (is_some (lookup "deny-all" deleted_world.engine.queries) ≡ true)
    ↔ Holds "deny-all" (row_database-IsRelational.table deleted_world.db)
Reached-compiled_example =
    Reached-compiled row_database same_text row_database-IsRelational row_database-IsWritable rego
      decimal same_text deleted_world "deny-all"
      (deletion "deny-all" started_world rest_compiles started-Reached)
