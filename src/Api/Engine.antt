-- ===== src/Api/Engine.antt =====
-- internal/api/engine/server.gen.go: the types of the engine API server that its handler uses. `F` is
-- the type of the float64 values.
pub mod Strict
use policy_manager.Base.{ℕ, String, Option}
use policy_manager.Json.{Object}
use policy_manager.Service.Evaluation.{EvaluationStatus}

pub record Error : Type 0 where
  pub detail : Option String
  pub status : ℕ
  pub title : String
  pub type : String

pub record ServiceInstance (F : Type 0) : Type 0 where
  pub spec : Object F

pub record EvaluateRequest (F : Type 0) : Type 0 where
  pub service_instance : ServiceInstance F

-- `EvaluateResponseStatus` has the texts of the service's status.
pub record EvaluateResponse (F : Type 0) : Type 0 where
  pub evaluated_service_instance : ServiceInstance F
  pub selected_provider : String
  pub status : EvaluationStatus

-- The responses of the operation; the number is the HTTP status.
pub data EvaluateRequestResponse (F : Type 0) : Type 0 where
  evaluate_request_200 : EvaluateResponse F → EvaluateRequestResponse F
  evaluate_request_400 evaluate_request_401 evaluate_request_403 evaluate_request_406
        evaluate_request_409 evaluate_request_500 :
      Error → EvaluateRequestResponse F
