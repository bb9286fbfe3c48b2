-- ===== src/Api/Server/Visits.antt =====
-- internal/api/server/server.gen.go: the Visit methods, which write a response.
use policy_manager.Base.{ℕ, String, Result, ok}
use policy_manager.Http.{Writer, set_header, write_header, encode_to}
use policy_manager.Api.Codec.{Codec}
use policy_manager.Api.Server.{
  GetHealthResponse, get_health_200, CreatePolicyResponse, create_policy_201, create_policy_400,
  create_policy_401, create_policy_403, create_policy_409, create_policy_422, create_policy_500,
  GetPolicyResponse, get_policy_200, get_policy_401, get_policy_403, get_policy_404, get_policy_500,
  ListPoliciesResponse, list_policies_200, list_policies_400, list_policies_401, list_policies_403,
  list_policies_500, UpdatePolicyResponse, update_policy_200, update_policy_400, update_policy_401,
  update_policy_403, update_policy_404, update_policy_409, update_policy_500, DeletePolicyResponse,
  delete_policy_204, delete_policy_401, delete_policy_403, delete_policy_404, delete_policy_500,
}

-- The three lines that most of the methods are made of.
unfoldable pub visit_json : ℕ → Result String String → Writer → Result String (Unit {0}) × Writer
visit_json status encoded w =
    encode_to encoded (write_header status (set_header "Content-Type" "application/json" w))

module _ (codec : Codec) where
  unfoldable pub visit_get_health : GetHealthResponse → Writer → Result String (Unit {0}) × Writer
  visit_get_health (get_health_200 h) w = visit_json 200 (codec.encode_health h) w

  unfoldable pub visit_list_policies :
      ListPoliciesResponse → Writer → Result String (Unit {0}) × Writer
  visit_list_policies (list_policies_200 l) w = visit_json 200 (codec.encode_policy_list l) w
  visit_list_policies (list_policies_400 e) w = visit_json 400 (codec.encode_error e) w
  visit_list_policies (list_policies_401 e) w = visit_json 401 (codec.encode_error e) w
  visit_list_policies (list_policies_403 e) w = visit_json 403 (codec.encode_error e) w
  visit_list_policies (list_policies_500 e) w = visit_json 500 (codec.encode_error e) w

  unfoldable pub visit_create_policy :
      CreatePolicyResponse → Writer → Result String (Unit {0}) × Writer
  visit_create_policy (create_policy_201 location p) w = encode_to (codec.encode_policy p) (
      write_header 201
        (set_header "Location" location (set_header "Content-Type" "application/json" w)))
  visit_create_policy (create_policy_400 e) w = visit_json 400 (codec.encode_error e) w
  visit_create_policy (create_policy_401 e) w = visit_json 401 (codec.encode_error e) w
  visit_create_policy (create_policy_403 e) w = visit_json 403 (codec.encode_error e) w
  visit_create_policy (create_policy_409 e) w = visit_json 409 (codec.encode_error e) w
  visit_create_policy (create_policy_422 e) w = visit_json 422 (codec.encode_error e) w
  visit_create_policy (create_policy_500 e) w = visit_json 500 (codec.encode_error e) w

  unfoldable pub visit_delete_policy :
      DeletePolicyResponse → Writer → Result String (Unit {0}) × Writer
  visit_delete_policy delete_policy_204 w = (ok tt, write_header 204 w)
  visit_delete_policy (delete_policy_401 e) w = visit_json 401 (codec.encode_error e) w
  visit_delete_policy (delete_policy_403 e) w = visit_json 403 (codec.encode_error e) w
  visit_delete_policy (delete_policy_404 e) w = visit_json 404 (codec.encode_error e) w
  visit_delete_policy (delete_policy_500 e) w = visit_json 500 (codec.encode_error e) w

  unfoldable pub visit_get_policy : GetPolicyResponse → Writer → Result String (Unit {0}) × Writer
  visit_get_policy (get_policy_200 p) w = visit_json 200 (codec.encode_policy p) w
  visit_get_policy (get_policy_401 e) w = visit_json 401 (codec.encode_error e) w
  visit_get_policy (get_policy_403 e) w = visit_json 403 (codec.encode_error e) w
  visit_get_policy (get_policy_404 e) w = visit_json 404 (codec.encode_error e) w
  visit_get_policy (get_policy_500 e) w = visit_json 500 (codec.encode_error e) w

  unfoldable pub visit_update_policy :
      UpdatePolicyResponse → Writer → Result String (Unit {0}) × Writer
  visit_update_policy (update_policy_200 p) w = visit_json 200 (codec.encode_policy p) w
  visit_update_policy (update_policy_400 e) w = visit_json 400 (codec.encode_error e) w
  visit_update_policy (update_policy_401 e) w = visit_json 401 (codec.encode_error e) w
  visit_update_policy (update_policy_403 e) w = visit_json 403 (codec.encode_error e) w
  visit_update_policy (update_policy_404 e) w = visit_json 404 (codec.encode_error e) w
  visit_update_policy (update_policy_409 e) w = visit_json 409 (codec.encode_error e) w
  visit_update_policy (update_policy_500 e) w = visit_json 500 (codec.encode_error e) w
