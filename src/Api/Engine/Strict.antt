-- ===== src/Api/Engine/Strict.antt =====
-- internal/api/engine/server.gen.go: the strict handler of the engine API, with its Visit methods.
use policy_manager.Base.{ℕ, String, Option, none, some, Result, ok, err, ◌∷◌, []}
use policy_manager.Base.Text.{sprintf}
use policy_manager.Http.{
  Writer, new_writer, set_header, write_header, encode_to, http_error, HttpResponse, received,
}
use policy_manager.Api.Engine
use policy_manager.Api.Engine.{
  EvaluateRequest, EvaluateResponse, EvaluateRequestResponse, evaluate_request_200,
  evaluate_request_400, evaluate_request_401, evaluate_request_403, evaluate_request_406,
  evaluate_request_409, evaluate_request_500,
}

-- encoding/json at the types of the engine API, and in its client.
pub record EngineCodec (F : Type 0) : Type 0 where
  pub encode_response : EvaluateResponse F → Result String String
  pub encode_error : Engine.Error → Result String String
  pub decode_body : String → Result String (EvaluateRequest F)
  pub unmarshal_response : String → Result String (EvaluateResponse F)
  pub unmarshal_error : String → Result String Engine.Error

unfoldable pub visit_json : ℕ → Result String String → Writer → Result String (Unit {0}) × Writer
visit_json status encoded w =
    encode_to encoded (write_header status (set_header "Content-Type" "application/json" w))

module _ {F : Type 0} (codec : EngineCodec F) where
  unfoldable pub visit_evaluate_request :
      EvaluateRequestResponse F → Writer → Result String (Unit {0}) × Writer
  unfolding visit_json
  visit_evaluate_request (evaluate_request_200 r) w = visit_json 200 (codec.encode_response r) w
  visit_evaluate_request (evaluate_request_400 e) w = visit_json 400 (codec.encode_error e) w
  visit_evaluate_request (evaluate_request_401 e) w = visit_json 401 (codec.encode_error e) w
  visit_evaluate_request (evaluate_request_403 e) w = visit_json 403 (codec.encode_error e) w
  visit_evaluate_request (evaluate_request_406 e) w = visit_json 406 (codec.encode_error e) w
  visit_evaluate_request (evaluate_request_409 e) w = visit_json 409 (codec.encode_error e) w
  visit_evaluate_request (evaluate_request_500 e) w = visit_json 500 (codec.encode_error e) w

  unfoldable pub visited : Result String (Unit {0}) × Writer → Writer
  visited (ok u, w) = w
  visited (err e, w) = http_error e 500 w

  unfoldable pub respond : Result String (EvaluateRequestResponse F) → Writer → Writer
  unfolding visited
  respond (err e) w = http_error e 500 w
  respond (ok response) w = visited (visit_evaluate_request response w)

  returned : Option (Result String (EvaluateRequestResponse F)) → Writer → Option Writer
  unfolding respond
  returned none w = none
  returned (some response) w = some (respond response w)

  -- `handler` is the one operation of StrictServerInterface; `none` is that it does not return.
  module _ (handler : EvaluateRequest F → Option (Result String (EvaluateRequestResponse F))) where
    evaluate_decoded : Result String (EvaluateRequest F) → Writer → Option Writer
    unfolding returned
    evaluate_decoded (err e) w =
        some (http_error (sprintf ("can't decode JSON body: " ∷ e ∷ [])) 400 w)
    evaluate_decoded (ok body) w = returned (handler body) w

    unfoldable pub evaluate_request : String → Writer → Option Writer
    unfolding evaluate_decoded
    evaluate_request body w = evaluate_decoded (codec.decode_body body) w

    received_of : Option Writer → Option HttpResponse
    received_of none = none
    received_of (some w) = some (received w)

    -- A request with this body, from the wire to the wire; there are no parameters to bind.
    unfoldable pub serve : String → Option HttpResponse
    unfolding received_of
    serve body = received_of (evaluate_request body new_writer)
