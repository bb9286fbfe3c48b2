-- ===== src/Handlers/Evaluation/Service.antt =====
-- internal/handlers/engine/handler.go: the handler over the evaluation service of
-- internal/service/evaluation.go.
use policy_manager.Base.{ℕ, String, Option, none, some, Result, map_err}
use policy_manager.Json.Go.{Go}
use policy_manager.Opa.Engine.{Rego, EmbeddedEngine}
use policy_manager.Store.Model.{PolicyListOptions, PolicyListResult}
use policy_manager.Service.Constraints.Validate.{JsonSchema}
use policy_manager.Service.Errors.{ServiceError}
use policy_manager.Service.Evaluation.{EvaluationRequest, EvaluationResponse}
use policy_manager.Service.Evaluation.Request
use policy_manager.Handlers.Errors.{AnyError, service_error}

-- The service's errors as Go errors.
abbrev pub returned {ℓ} : {A : Type ℓ} → Option (Result ServiceError A) → Option (Result AnyError A)
returned none = none
returned (some r) = some (map_err service_error r)

-- The evaluation service, with fuel for its pages.
abbrev pub evaluation_service :
    {F C S K Q : Type 0}
    → Go F
    → JsonSchema F C S
    → Rego F K Q
    → EmbeddedEngine Q
    → (list : PolicyListOptions → Result String PolicyListResult) → ℕ
    → EvaluationRequest F
    → Option (Result AnyError (EvaluationResponse F))
evaluation_service go js rego engine list fuel req =
    returned (Request.evaluate_request go js rego engine list fuel req)
