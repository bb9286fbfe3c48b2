-- ===== src/Api/Server/Strict.antt =====
-- internal/api/server/server.gen.go: the interface of the handlers, and the strict handler, which
-- decodes a request's body for them and writes their response. `W` is the state that they work on.
use policy_manager.Base.{String, Option, some, Result, ok, err, ◌∷◌, []}
use policy_manager.Base.Text.{sprintf}
use policy_manager.Http.{Writer, http_error}
use policy_manager.Api.Codec.{Codec}
use policy_manager.Api.Server
use policy_manager.Api.Server.{
  GetHealthResponse, ListPoliciesParams, CreatePolicyResponse, GetPolicyResponse,
  ListPoliciesResponse, UpdatePolicyResponse, DeletePolicyResponse,
}
use policy_manager.Api.Server.Visits.{
  visit_get_health, visit_list_policies, visit_create_policy, visit_delete_policy, visit_get_policy,
  visit_update_policy,
}

-- `StrictServerInterface`; the request objects are their fields.
pub record StrictServer (W : Type 0) : Type 0 where
  pub get_health : W → Result String GetHealthResponse
  pub list_policies : ListPoliciesParams → W → Result String ListPoliciesResponse
  pub create_policy :
      Option String → Option Server.Policy → W → Result String CreatePolicyResponse × W
  pub delete_policy : String → W → Result String DeletePolicyResponse × W
  pub get_policy : String → W → Result String GetPolicyResponse
  pub update_policy : String → Option Server.Policy → W → Result String UpdatePolicyResponse × W

-- RequestErrorHandlerFunc and ResponseErrorHandlerFunc of `NewStrictHandler`.
abbrev pub request_error : String → Writer → Writer
request_error e w = http_error (sprintf ("can't decode JSON body: " ∷ e ∷ [])) 400 w

abbrev pub response_error : String → Writer → Writer
response_error e w = http_error e 500 w

-- The end of each method, from the handler's results: the response is always of its operation.
unfoldable pub visited : Result String (Unit {0}) × Writer → Writer
visited (ok u, w) = w
visited (err e, w) = response_error e w

unfoldable pub respond :
    {R : Type 0}
    → (R → Writer → Result String (Unit {0}) × Writer)
    → Result String R
    → Writer
    → Writer
unfolding visited
respond visit (err e) w = response_error e w
respond visit (ok response) w = visited (visit response w)

module _ {W : Type 0} (codec : Codec) (ssi : StrictServer W) where
  unfoldable pub get_health : Writer → W → Writer
  get_health w s = respond (visit_get_health codec) (ssi.get_health s) w

  unfoldable pub list_policies : ListPoliciesParams → Writer → W → Writer
  list_policies params w s = respond (visit_list_policies codec) (ssi.list_policies params s) w

  create_decoded : Option String → Result String Server.Policy → Writer → W → Writer × W
  create_decoded id (err e) w s = (request_error e w, s)
  create_decoded id (ok body) w s =
      let (response, s') = ssi.create_policy id (some body) s in
      (respond (visit_create_policy codec) response w, s')

  unfoldable pub create_policy : Option String → String → Writer → W → Writer × W
  unfolding create_decoded
  create_policy id body w s = create_decoded id (codec.decode_body body) w s

  unfoldable pub delete_policy : String → Writer → W → Writer × W
  delete_policy policy_id w s =
      let (response, s') = ssi.delete_policy policy_id s in
      (respond (visit_delete_policy codec) response w, s')

  unfoldable pub get_policy : String → Writer → W → Writer
  get_policy policy_id w s = respond (visit_get_policy codec) (ssi.get_policy policy_id s) w

  update_decoded : String → Result String Server.Policy → Writer → W → Writer × W
  update_decoded policy_id (err e) w s = (request_error e w, s)
  update_decoded policy_id (ok body) w s =
      let (response, s') = ssi.update_policy policy_id (some body) s in
      (respond (visit_update_policy codec) response w, s')

  unfoldable pub update_policy : String → String → Writer → W → Writer × W
  unfolding update_decoded
  update_policy policy_id body w s = update_decoded policy_id (codec.decode_body body) w s
