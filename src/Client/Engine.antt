-- ===== src/Client/Engine.antt =====
-- pkg/engineclient/client.gen.go: the client of the engine API. What its code has in common with the
-- client of the policy API, to the letter, is taken from there.
pub mod Shown
use policy_manager.Base.{
  String, Option, none, some, [], ◌∷◌, List, Result, ok, ◌>>=◌, if◌then◌else◌,
}
use policy_manager.Api.Engine
use policy_manager.Api.Engine.{EvaluateRequest, EvaluateResponse}
use policy_manager.Api.Engine.Strict.{EngineCodec}
use policy_manager.Client.Responses.{Reply, is_json, store_json}
use policy_manager.Client.Requests.{Urls, Request, operation_url, new_request}
use policy_manager.Client.Requests.Calls.{RequestEditorFn, Client, send, parsed}

pub record EvaluateRequestResponse (F : Type 0) : Type 0 where
  pub body : String
  pub http_response : Reply
  pub json200 : Option (EvaluateResponse F)
  pub json400 : Option Engine.Error
  pub json401 : Option Engine.Error
  pub json403 : Option Engine.Error
  pub json406 : Option Engine.Error
  pub json409 : Option Engine.Error
  pub json500 : Option Engine.Error

abbrev pub blank_evaluate_request : {F : Type 0} → String → Reply → EvaluateRequestResponse F
blank_evaluate_request body rsp = record {
  body = body;
  http_response = rsp;
  json200 = none;
  json400 = none;
  json401 = none;
  json403 = none;
  json406 = none;
  json409 = none;
  json500 = none;
}

module _ {F : Type 0} (codec : EngineCodec F) where
  evaluate_request_cases :
      Reply → String → EvaluateRequestResponse F → Result String (EvaluateRequestResponse F)
  evaluate_request_cases rsp body response =
      if is_json rsp 200
      then store_json (λ dest. record response { json200 = some dest })
          (codec.unmarshal_response body)
      else if is_json rsp 400
      then store_json (λ dest. record response { json400 = some dest }) (codec.unmarshal_error body)
      else if is_json rsp 401
      then store_json (λ dest. record response { json401 = some dest }) (codec.unmarshal_error body)
      else if is_json rsp 403
      then store_json (λ dest. record response { json403 = some dest }) (codec.unmarshal_error body)
      else if is_json rsp 406
      then store_json (λ dest. record response { json406 = some dest }) (codec.unmarshal_error body)
      else if is_json rsp 409
      then store_json (λ dest. record response { json409 = some dest }) (codec.unmarshal_error body)
      else if is_json rsp 500
      then store_json (λ dest. record response { json500 = some dest }) (codec.unmarshal_error body)
      else ok response

  unfoldable pub parse_evaluate_request_response : Reply → Result String (EvaluateRequestResponse F)
  unfolding evaluate_request_cases
  parse_evaluate_request_response rsp =
      rsp.body >>= λ body. evaluate_request_cases rsp body (blank_evaluate_request body rsp)

module _ {U : Type 0} (urls : Urls U) where
  unfoldable pub new_evaluate_request_request_with_body :
      String → String → String → Result String Request
  new_evaluate_request_request_with_body server content_type body = do
    url ← operation_url urls server "/policies:evaluateRequest"
    new_request urls "POST" url (("Content-Type", content_type) ∷ []) (some body)

  -- `marshal` is json.Marshal of the body.
  module _ {F : Type 0} (marshal : EvaluateRequest F → Result String String) where
    unfoldable pub new_evaluate_request_request : String → EvaluateRequest F → Result String Request
    new_evaluate_request_request server body = do
      buf ← marshal body
      new_evaluate_request_request_with_body server "application/json" buf

  module _ {W F : Type 0} (codec : EngineCodec F)
      (marshal : EvaluateRequest F → Result String String) (c : Client W)
      (editors : List RequestEditorFn) where
    unfoldable pub evaluate_request_with_body_with_response :
        String → String → W → Result String (EvaluateRequestResponse F) × W
    evaluate_request_with_body_with_response content_type body w =
        parsed (parse_evaluate_request_response codec)
          (send c editors (new_evaluate_request_request_with_body c.server content_type body) w)

    unfoldable pub evaluate_request_with_response :
        EvaluateRequest F → W → Result String (EvaluateRequestResponse F) × W
    evaluate_request_with_response body w =
        parsed (parse_evaluate_request_response codec)
          (send c editors (new_evaluate_request_request marshal c.server body) w)
