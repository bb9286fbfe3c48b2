-- ===== src/Client/Laws/Shown/Reads.antt =====
-- pkg/client/client.gen.go over internal/api/server/server.gen.go: the responses to the operations that read.
use policy_manager.Base.{refl}
use policy_manager.Base.Dict.{lookup, insert}
use policy_manager.Http.{write_header, received}
use policy_manager.Api.Codec.{Codec}
use policy_manager.Api.Server
use policy_manager.Api.Server.{
  get_health_200, list_policies_200, list_policies_400, list_policies_401, list_policies_403,
  list_policies_500, get_policy_200, get_policy_401, get_policy_403, get_policy_404, get_policy_500,
}
use policy_manager.Api.Server.Strict.{respond, visited}
use policy_manager.Api.Server.Visits.{
  visit_json, visit_get_health, visit_list_policies, visit_get_policy,
}
use policy_manager.Client.Responses.{is_json, header_get, store_json}
use policy_manager.Client.Responses.Parse.{
  parse_get_health_response, parse_list_policies_response, parse_get_policy_response,
}
use policy_manager.Client.Laws.{json_header}
use policy_manager.Client.Laws.Decoded.{GetHealthDecoded, ListPoliciesDecoded, GetPolicyDecoded}
use policy_manager.Client.Laws.Shown.{
  encoded-written, GetHealthShows, get_health_reply, ListPoliciesShows, list_policies_reply,
  GetPolicyShows, get_policy_reply,
}

module _ (codec : Codec) where
  pub get_health_reply-Shows :
      (r : Server.GetHealthResponse)
      → GetHealthDecoded codec r
      → GetHealthShows codec r (get_health_reply codec r)
  unfolding visit_get_health visit_json parse_get_health_response respond visited is_json header_get
      store_json write_header received lookup insert
  get_health_reply-Shows (get_health_200 x) (text, encoded, read) =
      encoded-written (GetHealthShows codec (get_health_200 x)) 200 json_header encoded
        (refl, _, refl, rw read refl)

  pub list_policies_reply-Shows :
      (r : Server.ListPoliciesResponse)
      → ListPoliciesDecoded codec r
      → ListPoliciesShows codec r (list_policies_reply codec r)
  unfolding visit_list_policies visit_json parse_list_policies_response respond visited is_json
      header_get store_json write_header received lookup insert
  list_policies_reply-Shows (list_policies_200 x) (text, encoded, read) =
      encoded-written (ListPoliciesShows codec (list_policies_200 x)) 200 json_header encoded
        (refl, _, refl, rw read refl)
  list_policies_reply-Shows (list_policies_400 x) (text, encoded, read) =
      encoded-written (ListPoliciesShows codec (list_policies_400 x)) 400 json_header encoded
        (refl, _, refl, rw read refl)
  list_policies_reply-Shows (list_policies_401 x) (text, encoded, read) =
      encoded-written (ListPoliciesShows codec (list_policies_401 x)) 401 json_header encoded
        (refl, _, refl, rw read refl)
  list_policies_reply-Shows (list_policies_403 x) (text, encoded, read) =
      encoded-written (ListPoliciesShows codec (list_policies_403 x)) 403 json_header encoded
        (refl, _, refl, rw read refl)
  list_policies_reply-Shows (list_policies_500 x) (text, encoded, read) =
      encoded-written (ListPoliciesShows codec (list_policies_500 x)) 500 json_header encoded
        (refl, _, refl, rw read refl)

  pub get_policy_reply-Shows :
      (r : Server.GetPolicyResponse)
      → GetPolicyDecoded codec r
      → GetPolicyShows codec r (get_policy_reply codec r)
  unfolding visit_get_policy visit_json parse_get_policy_response respond visited is_json header_get
      store_json write_header received lookup insert
  get_policy_reply-Shows (get_policy_200 x) (text, encoded, read) =
      encoded-written (GetPolicyShows codec (get_policy_200 x)) 200 json_header encoded
        (refl, _, refl, rw read refl)
  get_policy_reply-Shows (get_policy_401 x) (text, encoded, read) =
      encoded-written (GetPolicyShows codec (get_policy_401 x)) 401 json_header encoded
        (refl, _, refl, rw read refl)
  get_policy_reply-Shows (get_policy_403 x) (text, encoded, read) =
      encoded-written (GetPolicyShows codec (get_policy_403 x)) 403 json_header encoded
        (refl, _, refl, rw read refl)
  get_policy_reply-Shows (get_policy_404 x) (text, encoded, read) =
      encoded-written (GetPolicyShows codec (get_policy_404 x)) 404 json_header encoded
        (refl, _, refl, rw read refl)
  get_policy_reply-Shows (get_policy_500 x) (text, encoded, read) =
      encoded-written (GetPolicyShows codec (get_policy_500 x)) 500 json_header encoded
        (refl, _, refl, rw read refl)
