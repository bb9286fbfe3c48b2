-- ===== src/Handlers/Evaluation/Statuses.antt =====
-- internal/handlers/engine: the statuses of the responses.
use policy_manager.Base.{
  ℕ, ◌≡◌, refl, sym, ap, ◌≢◌, inl, inr, String, Option, none, some, Result, ok, err, ◌↔◌, arith,
  ◌>>=◌,
}
use policy_manager.Json.{Object, get}
use policy_manager.Json.Go.{Go}
use policy_manager.Opa.Engine.{Rego, EmbeddedEngine}
use policy_manager.Store.Model.{PolicyListOptions, PolicyListResult}
use policy_manager.Service.Constraints.Validate.{JsonSchema}
use policy_manager.Service.Errors.{ServiceError}
use policy_manager.Service.Evaluation.{EvaluationResponse}
use policy_manager.Service.Evaluation.Failures.{IsEvaluationError}
use policy_manager.Service.Evaluation.Request.Failures.{IsSound, evaluate_request-IsSound}
use policy_manager.Api.Engine.{
  EvaluateRequest, EvaluateRequestResponse, evaluate_request_200, evaluate_request_400,
  evaluate_request_401, evaluate_request_403, evaluate_request_406, evaluate_request_409,
  evaluate_request_500,
}
use policy_manager.Handlers.Evaluation.Service.{returned, evaluation_service}
use policy_manager.Handlers.Evaluation.{
  string_field, error_of, handle_error, request_labels_of, extract_request_labels,
  to_service_evaluation_request, answer_returned, evaluate_converted, evaluate_request,
}

module _ {F : Type 0} where
  -- The HTTP status of a response.
  unfoldable pub status : EvaluateRequestResponse F → ℕ
  status (evaluate_request_200 r) = 200
  status (evaluate_request_400 e) = 400
  status (evaluate_request_401 e) = 401
  status (evaluate_request_403 e) = 403
  status (evaluate_request_406 e) = 406
  status (evaluate_request_409 e) = 409
  status (evaluate_request_500 e) = 500

module _ (F : Type 0) where
  error_of-ne-400 :
      (e : ServiceError) → IsEvaluationError e → status {F = F} (error_of e.type e) ≢ 400
  unfolding error_of status
  error_of-ne-400 e (inl t) = rw t (omega arith)
  error_of-ne-400 e (inr (inl t)) = rw t (omega arith)
  error_of-ne-400 e (inr (inr t)) = rw t (omega arith)

some_injective {ℓ} : {A : Type ℓ} {a b : A} → some a ≡ some b → a ≡ b
some_injective h = cc

module _ {F : Type 0} where
  answer_returned-ne-400 :
      (r : Option (Result ServiceError (EvaluationResponse F)))
      (response : EvaluateRequestResponse F)
      → IsSound r
      → answer_returned (returned r) ≡ some response
      → status response ≢ 400
  unfolding answer_returned handle_error status
  answer_returned-ne-400 none response sound h = cc
  answer_returned-ne-400 (some (err e)) response sound h =
      rw (sym (some_injective h)) (error_of-ne-400 F e sound)
  answer_returned-ne-400 (some (ok r)) response sound h = rw (sym (some_injective h)) (omega arith)

module _ {F C S K Q : Type 0} (go : Go F) (js : JsonSchema F C S) (rego : Rego F K Q)
    (engine : EmbeddedEngine Q) (list : PolicyListOptions → Result String PolicyListResult) where
  evaluate_converted-400 :
      (fuel : ℕ) (service_type : Option String) (spec : Object F)
      (response : EvaluateRequestResponse F)
      → evaluate_converted (evaluation_service go js rego engine list fuel) (
          request_labels_of service_type spec >>= λ labels.
          ok (record { service_instance = spec; request_labels = labels }))
        ≡ some response
      → (status response ≡ 400) ↔ (service_type ≡ none)
  unfolding evaluate_converted request_labels_of status
  evaluate_converted-400 fuel none spec response h =
      (λ s. refl, λ s. ap status (sym (some_injective h)))
  evaluate_converted-400 fuel (some service_type) spec response h = (
    λ bad. absurd (
        answer_returned-ne-400 _ response (evaluate_request-IsSound go js rego engine list fuel _) h
          bad),
    λ missing. cc,
  )

  -- The engine API answers 400 to a request that it answers exactly when the specification has no
  -- service type that is a string: no error of the evaluation itself comes out as a bad request.
  pub evaluate_request-400 :
      (fuel : ℕ) (request : EvaluateRequest F) (response : EvaluateRequestResponse F)
      → evaluate_request (evaluation_service go js rego engine list fuel) request ≡ some response
      → (status response ≡ 400)
        ↔ (string_field (get "service_type" request.service_instance.spec) ≡ none)
  unfolding evaluate_request to_service_evaluation_request extract_request_labels
  evaluate_request-400 fuel request response h =
      evaluate_converted-400 fuel (string_field (get "service_type" request.service_instance.spec))
        request.service_instance.spec response h
