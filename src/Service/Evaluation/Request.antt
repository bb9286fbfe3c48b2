-- ===== src/Service/Evaluation/Request.antt =====
-- `EvaluateRequest` of internal/service/evaluation.go: the pages of enabled policies, and the response.
pub mod Fold
pub mod Complete
pub mod Failures
use policy_manager.Base.{
  ℕ, zero, suc, true, String, Option, none, some, ◌==◌, Result, ok, err, if◌then◌else◌,
}
use policy_manager.Base.Int.{pos}
use policy_manager.Base.Dict.{Dict}
use policy_manager.Json.{Object}
use policy_manager.Json.Go.{Go}
use policy_manager.Opa.Engine.{Rego, EmbeddedEngine}
use policy_manager.Store.Model.{PolicyListOptions, PolicyListResult}
use policy_manager.Service.Errors.{ServiceError, new_internal_error}
use policy_manager.Service.Constraints.Context.{new_constraint_context}
use policy_manager.Service.Constraints.Validate.{JsonSchema}
use policy_manager.Service.Evaluation.{
  approved, modified, EvaluationRequest, EvaluationResponse, Progress, evaluate_page,
}

-- The options of each call of `List`: enabled policies, in the default order, 1000 to a page.
unfoldable pub page_options : Option String → PolicyListOptions
page_options page_token = record {
  filter = some (record { policy_type = none; enabled = some true });
  order_by = "";
  page_token = page_token;
  page_size = pos 1000;
}

module _ {F C S K Q : Type 0} (go : Go F) (js : JsonSchema F C S) (rego : Rego F K Q)
    (engine : EmbeddedEngine Q) (list : PolicyListOptions → Result String PolicyListResult) where
  -- The end of a round: the loop stops at an error and at the last page; `next` is the rounds after.
  end_of_page :
      (Option String → Progress F → Option (Result ServiceError (Progress F)))
      → String
      → Result ServiceError (Progress F)
      → Option (Result ServiceError (Progress F))
  end_of_page next next_page_token (err e) = some (err e)
  end_of_page next next_page_token (ok st) =
      if next_page_token == "" then some (ok st) else next (some next_page_token) st

  round :
      (Option String → Progress F → Option (Result ServiceError (Progress F)))
      → Dict String
      → Progress F
      → Result String PolicyListResult
      → Option (Result ServiceError (Progress F))
  unfolding end_of_page
  round next labels st (err e) =
      some (err (new_internal_error "Failed to retrieve policies" e (some e)))
  round next labels st (ok page) =
      end_of_page next page.next_page_token
        (evaluate_page go js rego engine labels page.policies st)

  -- The loop over the pages. The fuel bounds the number of pages; `none` is that it ran out.
  evaluate_pages :
      ℕ → Dict String → Option String → Progress F → Option (Result ServiceError (Progress F))
  unfolding round
  evaluate_pages zero labels page_token st = none
  evaluate_pages (suc fuel) labels page_token st =
      round (evaluate_pages fuel labels) labels st (list (page_options page_token))

  respond : EvaluationRequest F → Progress F → EvaluationResponse F
  respond req st = record {
    evaluated_service_instance = st.current_spec;
    selected_provider = st.selected_provider;
    status = if go.deep_equal req.service_instance st.current_spec then approved else modified;
  }

  start_of : Object F → Progress F
  start_of spec = record {
    current_spec = spec;
    selected_provider = "";
    constraint_ctx = new_constraint_context;
  }

  finish :
      EvaluationRequest F
      → Option (Result ServiceError (Progress F))
      → Option (Result ServiceError (EvaluationResponse F))
  unfolding respond
  finish req none = none
  finish req (some (err e)) = some (err e)
  finish req (some (ok st)) = some (ok (respond req st))

  evaluate_copy :
      ℕ
      → EvaluationRequest F
      → Result String (Object F)
      → Option (Result ServiceError (EvaluationResponse F))
  unfolding evaluate_pages finish start_of
  evaluate_copy fuel req (err e) = some (
      err (new_internal_error "Failed to make a deep copy of the service instance spec" e (some e)))
  evaluate_copy fuel req (ok spec) =
      finish req (evaluate_pages fuel req.request_labels none (start_of spec))

  unfoldable pub evaluate_request :
      ℕ → EvaluationRequest F → Option (Result ServiceError (EvaluationResponse F))
  unfolding evaluate_copy
  evaluate_request fuel req = evaluate_copy fuel req (go.deep_copy req.service_instance)
