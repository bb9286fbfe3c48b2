-- ===== src/Client/Responses/Parse.antt =====
-- pkg/client/client.gen.go: the parsers of the responses.
use policy_manager.Base.{String, none, some, Result, ok, ◌>>=◌, if◌then◌else◌}
use policy_manager.Api.Codec.{Codec}
use policy_manager.Client.Responses.{
  Reply, is_json, store_json, GetHealthResponse, ListPoliciesResponse, CreatePolicyResponse,
  DeletePolicyResponse, GetPolicyResponse, UpdatePolicyResponse,
}

module _ (codec : Codec) where
  get_health_cases : Reply → String → GetHealthResponse → Result String GetHealthResponse
  get_health_cases rsp body response =
      if is_json rsp 200
      then store_json (λ dest. record response { json200 = some dest })
          (codec.unmarshal_health body)
      else ok response

  unfoldable pub parse_get_health_response : Reply → Result String GetHealthResponse
  unfolding get_health_cases
  parse_get_health_response rsp = rsp.body >>= λ body.
      get_health_cases rsp body (record { body = body; http_response = rsp; json200 = none })

  list_policies_cases : Reply → String → ListPoliciesResponse → Result String ListPoliciesResponse
  list_policies_cases rsp body response =
      if is_json rsp 200
      then store_json (λ dest. record response { json200 = some dest })
          (codec.unmarshal_policy_list body)
      else if is_json rsp 400
      then store_json (λ dest. record response { json400 = some dest }) (codec.unmarshal_error body)
      else if is_json rsp 401
      then store_json (λ dest. record response { json401 = some dest }) (codec.unmarshal_error body)
      else if is_json rsp 403
      then store_json (λ dest. record response { json403 = some dest }) (codec.unmarshal_error body)
      else if is_json rsp 500
      then store_json (λ dest. record response { json500 = some dest }) (codec.unmarshal_error body)
      else ok response

  unfoldable pub parse_list_policies_response : Reply → Result String ListPoliciesResponse
  unfolding list_policies_cases
  parse_list_policies_response rsp = rsp.body >>= λ body. list_policies_cases rsp body (record {
    body = body;
    http_response = rsp;
    json200 = none;
    json400 = none;
    json401 = none;
    json403 = none;
    json500 = none;
  })

  create_policy_cases : Reply → String → CreatePolicyResponse → Result String CreatePolicyResponse
  create_policy_cases rsp body response =
      if is_json rsp 201
      then store_json (λ dest. record response { json201 = some dest })
          (codec.unmarshal_policy body)
      else if is_json rsp 400
      then store_json (λ dest. record response { json400 = some dest }) (codec.unmarshal_error body)
      else if is_json rsp 401
      then store_json (λ dest. record response { json401 = some dest }) (codec.unmarshal_error body)
      else if is_json rsp 403
      then store_json (λ dest. record response { json403 = some dest }) (codec.unmarshal_error body)
      else if is_json rsp 409
      then store_json (λ dest. record response { json409 = some dest }) (codec.unmarshal_error body)
      else if is_json rsp 422
      then store_json (λ dest. record response { json422 = some dest }) (codec.unmarshal_error body)
      else if is_json rsp 500
      then store_json (λ dest. record response { json500 = some dest }) (codec.unmarshal_error body)
      else ok response

  unfoldable pub parse_create_policy_response : Reply → Result String CreatePolicyResponse
  unfolding create_policy_cases
  parse_create_policy_response rsp = rsp.body >>= λ body. create_policy_cases rsp body (record {
    body = body;
    http_response = rsp;
    json201 = none;
    json400 = none;
    json401 = none;
    json403 = none;
    json409 = none;
    json422 = none;
    json500 = none;
  })

  delete_policy_cases : Reply → String → DeletePolicyResponse → Result String DeletePolicyResponse
  delete_policy_cases rsp body response =
      if is_json rsp 401
      then store_json (λ dest. record response { json401 = some dest }) (codec.unmarshal_error body)
      else if is_json rsp 403
      then store_json (λ dest. record response { json403 = some dest }) (codec.unmarshal_error body)
      else if is_json rsp 404
      then store_json (λ dest. record response { json404 = some dest }) (codec.unmarshal_error body)
      else if is_json rsp 500
      then store_json (λ dest. record response { json500 = some dest }) (codec.unmarshal_error body)
      else ok response

  unfoldable pub parse_delete_policy_response : Reply → Result String DeletePolicyResponse
  unfolding delete_policy_cases
  parse_delete_policy_response rsp = rsp.body >>= λ body. delete_policy_cases rsp body (record {
    body = body;
    http_response = rsp;
    json401 = none;
    json403 = none;
    json404 = none;
    json500 = none;
  })

  get_policy_cases : Reply → String → GetPolicyResponse → Result String GetPolicyResponse
  get_policy_cases rsp body response =
      if is_json rsp 200
      then store_json (λ dest. record response { json200 = some dest })
          (codec.unmarshal_policy body)
      else if is_json rsp 401
      then store_json (λ dest. record response { json401 = some dest }) (codec.unmarshal_error body)
      else if is_json rsp 403
      then store_json (λ dest. record response { json403 = some dest }) (codec.unmarshal_error body)
      else if is_json rsp 404
      then store_json (λ dest. record response { json404 = some dest }) (codec.unmarshal_error body)
      else if is_json rsp 500
      then store_json (λ dest. record response { json500 = some dest }) (codec.unmarshal_error body)
      else ok response

  unfoldable pub parse_get_policy_response : Reply → Result String GetPolicyResponse
  unfolding get_policy_cases
  parse_get_policy_response rsp = rsp.body >>= λ body. get_policy_cases rsp body (record {
    body = body;
    http_response = rsp;
    json200 = none;
    json401 = none;
    json403 = none;
    json404 = none;
    json500 = none;
  })

  update_policy_cases : Reply → String → UpdatePolicyResponse → Result String UpdatePolicyResponse
  update_policy_cases rsp body response =
      if is_json rsp 200
      then store_json (λ dest. record response { json200 = some dest })
          (codec.unmarshal_policy body)
      else if is_json rsp 400
      then store_json (λ dest. record response { json400 = some dest }) (codec.unmarshal_error body)
      else if is_json rsp 401
      then store_json (λ dest. record response { json401 = some dest }) (codec.unmarshal_error body)
      else if is_json rsp 403
      then store_json (λ dest. record response { json403 = some dest }) (codec.unmarshal_error body)
      else if is_json rsp 404
      then store_json (λ dest. record response { json404 = some dest }) (codec.unmarshal_error body)
      else if is_json rsp 409
      then store_json (λ dest. record response { json409 = some dest }) (codec.unmarshal_error body)
      else if is_json rsp 500
      then store_json (λ dest. record response { json500 = some dest }) (codec.unmarshal_error body)
      else ok response

  unfoldable pub parse_update_policy_response : Reply → Result String UpdatePolicyResponse
  unfolding update_policy_cases
  parse_update_policy_response rsp = rsp.body >>= λ body. update_policy_cases rsp body (record {
    body = body;
    http_response = rsp;
    json200 = none;
    json400 = none;
    json401 = none;
    json403 = none;
    json404 = none;
    json409 = none;
    json500 = none;
  })
