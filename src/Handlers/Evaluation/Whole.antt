-- ===== src/Handlers/Evaluation/Whole.antt =====
-- internal/handlers/engine over internal/service/evaluation.go over internal/store/policy.go.
use policy_manager.Base.{
  ℕ, suc, ◌+◌, ◌*◌, ◌≤◌, ◌<◌, ◌^◌, ◌≡◌, refl, ap, String, some, length, Result, ok, err, ◌>>=◌,
  map_err,
}
use policy_manager.Base.Dict.{Dict}
use policy_manager.Json.{Object}
use policy_manager.Json.Go.{Go, Copies}
use policy_manager.Opa.Engine.{Rego, EmbeddedEngine}
use policy_manager.Store.Database.{Database}
use policy_manager.Store.Database.Relational.{IsRelational}
use policy_manager.Service.Constraints.Validate.{JsonSchema}
use policy_manager.Service.Evaluation.Request.Fold.{applicable, begun, evaluate_all, answer}
use policy_manager.Service.Evaluation.Request.Complete.{
  list_enabled, enabled_policies, evaluate_request-all,
}
use policy_manager.Api.Engine.{EvaluateRequest, EvaluateRequestResponse}
use policy_manager.Handlers.Errors.{service_error}
use policy_manager.Handlers.Evaluation.Service.{returned, evaluation_service}
use policy_manager.Handlers.Evaluation.{
  response_to, bad_request, extract_request_labels, answer_returned, evaluate_converted,
  to_service_evaluation_request, evaluate_request,
}

module _ {F C S K Q D : Type 0} (go : Go F) (js : JsonSchema F C S) (rego : Rego F K Q)
    (engine : EmbeddedEngine Q) (db : Database D) (to_lower : String → String)
    (relational : IsRelational db) (d : D) where
  -- The response of one pass over the policies of a list.
  abbrev pub response_of : Object F → Result String (Dict String) → EvaluateRequestResponse F
  response_of spec (err e) = bad_request e
  response_of spec (ok labels) = response_to (
      map_err service_error (
        evaluate_all go js rego engine
          (applicable labels (enabled_policies go js rego engine db to_lower relational d))
          (begun spec)
        >>= λ st. ok (
            answer go js rego engine (record { service_instance = spec; request_labels = labels })
              st)))

  evaluate_converted-response_of :
      (fuel : ℕ) (spec : Object F) (labels : Result String (Dict String))
      → Copies go
      → length (enabled_policies go js rego engine db to_lower relational d) + 1001 < 2 ^ 63
      → length (enabled_policies go js rego engine db to_lower relational d) ≤ 1000 * suc fuel
      → evaluate_converted
          (evaluation_service go js rego engine
            (list_enabled go js rego engine db to_lower relational d)
            (suc fuel))
          (labels >>= λ ls. ok (record { service_instance = spec; request_labels = ls }))
        ≡ some (response_of spec labels)
  unfolding evaluate_converted answer_returned
  evaluate_converted-response_of fuel spec (err e) copies fits enough = refl
  evaluate_converted-response_of fuel spec (ok labels) copies fits enough =
      ap (λ r. answer_returned (returned r))
        (evaluate_request-all go js rego engine db to_lower relational d fuel
          (record { service_instance = spec; request_labels = labels }) copies fits enough)

  -- The whole engine API against a store with at most 1000 enabled policies for each unit of fuel: every
  -- request is answered, and the answer is fixed by one pass over the enabled policies whose selectors
  -- match the labels of the request, in the order of the store's default clause: 200 with the final
  -- specification, provider and status, or the response of the first error. The database behaves as SQL
  -- documents, a deep copy is its original, and the policies can be counted in 64 bits.
  pub evaluate_request-response_of :
      (fuel : ℕ) (request : EvaluateRequest F)
      → Copies go
      → length (enabled_policies go js rego engine db to_lower relational d) + 1001 < 2 ^ 63
      → length (enabled_policies go js rego engine db to_lower relational d) ≤ 1000 * suc fuel
      → evaluate_request
          (evaluation_service go js rego engine
            (list_enabled go js rego engine db to_lower relational d)
            (suc fuel))
          request
        ≡ some (
            response_of request.service_instance.spec
              (extract_request_labels request.service_instance.spec))
  unfolding evaluate_request to_service_evaluation_request
  evaluate_request-response_of fuel request copies fits enough =
      evaluate_converted-response_of fuel request.service_instance.spec
        (extract_request_labels request.service_instance.spec) copies fits enough
