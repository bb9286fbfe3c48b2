-- ===== src/Client/Requests/Calls.antt =====
-- pkg/client/client.gen.go: the client, its options, and its methods, which send a request and parse the
-- response. `W` is the state of what is at the other end.
use Prim.Native.Char.{code}
use policy_manager.Base.{
  eqb, Bool, false, String, Option, none, some, List, [], ◌∷◌, Result, ok, err, ◌>>=◌,
  if◌then◌else◌,
}
use policy_manager.Base.Text.{sprintf}
use policy_manager.Api.Types
use policy_manager.Api.Types.{ListPoliciesParams}
use policy_manager.Api.Codec.{Codec}
use policy_manager.Client.Responses.{
  Reply, GetHealthResponse, ListPoliciesResponse, CreatePolicyResponse, DeletePolicyResponse,
  GetPolicyResponse, UpdatePolicyResponse,
}
use policy_manager.Client.Responses.Parse.{
  parse_get_health_response, parse_list_policies_response, parse_create_policy_response,
  parse_delete_policy_response, parse_get_policy_response, parse_update_policy_response,
}
use policy_manager.Client.Requests.{
  Urls, Request, new_get_health_request, new_list_policies_request, new_create_policy_request,
  new_create_policy_request_with_body, new_delete_policy_request, new_get_policy_request,
  new_update_policy_request, new_update_policy_request_with_body,
}

-- `RequestEditorFn`, and `HttpRequestDoer` with the state that it works on.
abbrev pub RequestEditorFn : Type 0
RequestEditorFn = Request → Result String Request

abbrev pub HttpRequestDoer : Type 0 → Type 0
HttpRequestDoer W = Request → W → Result String Reply × W

pub record Client (W : Type 0) : Type 0 where
  pub server : String
  pub client : HttpRequestDoer W
  pub request_editors : List RequestEditorFn

-- A client to which NewClient has not given its default doer yet.
pub record Draft (W : Type 0) : Type 0 where
  pub server : String
  pub client : Option (HttpRequestDoer W)
  pub request_editors : List RequestEditorFn

-- `ClientOption`
abbrev pub ClientOption : Type 0 → Type 0
ClientOption W = Draft W → Result String (Draft W)

-- `strings.HasSuffix(s, "/")`
ends_with_slash : String → Bool
ends_with_slash String.[] = false
ends_with_slash (String.◌∷◌ c String.[]) = eqb (code c) 47
ends_with_slash (String.◌∷◌ c (String.◌∷◌ d s)) = ends_with_slash (String.◌∷◌ d s)

unfoldable pub with_trailing_slash : String → String
unfolding ends_with_slash
with_trailing_slash server = if ends_with_slash server then server else sprintf (server ∷ "/" ∷ [])

unfoldable pub run_editors : List RequestEditorFn → Request → Result String Request
run_editors [] req = ok req
run_editors (r ∷ editors) req = r req >>= λ edited. run_editors editors edited

module _ {W : Type 0} where
  run_options : List (ClientOption W) → Draft W → Result String (Draft W)
  run_options [] client = ok client
  run_options (o ∷ opts) client = o client >>= λ mutated. run_options opts mutated

  default_client : HttpRequestDoer W → Option (HttpRequestDoer W) → HttpRequestDoer W
  default_client http_client none = http_client
  default_client http_client (some doer) = doer

  -- `http_client` is `&http.Client{}`.
  unfoldable pub new_client :
      HttpRequestDoer W → String → List (ClientOption W) → Result String (Client W)
  unfolding run_options default_client
  new_client http_client server opts =
      run_options opts (record { server = server; client = none; request_editors = [] })
      >>= λ client. ok (record {
        server = with_trailing_slash client.server;
        client = default_client http_client client.client;
        request_editors = client.request_editors;
      })

  -- `(*Client).applyEditors`
  unfoldable pub apply_editors : Client W → List RequestEditorFn → Request → Result String Request
  apply_editors c additional_editors req =
      run_editors c.request_editors req >>= λ edited. run_editors additional_editors edited

  do_request : HttpRequestDoer W → Result String Request → W → Result String Reply × W
  do_request doer (err e) w = (err e, w)
  do_request doer (ok req) w = doer req w

  -- The body of each method: the request, its editors, and the call.
  unfoldable pub send :
      Client W → List RequestEditorFn → Result String Request → W → Result String Reply × W
  unfolding do_request
  send c req_editors built w =
      do_request c.client (built >>= λ req. apply_editors c req_editors req) w

  -- The body of each method that parses the response.
  unfoldable pub parsed :
      {C : Type 0} → (Reply → Result String C) → Result String Reply × W → Result String C × W
  parsed parse (rsp, w) = (rsp >>= λ r. parse r, w)

  module _ {U : Type 0} (urls : Urls U) (codec : Codec) (c : Client W)
      (editors : List RequestEditorFn) where
    unfoldable pub get_health_with_response : W → Result String GetHealthResponse × W
    get_health_with_response w =
        parsed (parse_get_health_response codec)
          (send c editors (new_get_health_request urls c.server) w)

    unfoldable pub list_policies_with_response :
        Option ListPoliciesParams → W → Result String ListPoliciesResponse × W
    list_policies_with_response params w =
        parsed (parse_list_policies_response codec)
          (send c editors (new_list_policies_request urls c.server params) w)

    unfoldable pub create_policy_with_body_with_response :
        Option (Option String) → String → String → W → Result String CreatePolicyResponse × W
    create_policy_with_body_with_response params content_type body w =
        parsed (parse_create_policy_response codec) (
          send c editors
            (new_create_policy_request_with_body urls c.server params content_type body) w)

    unfoldable pub create_policy_with_response :
        Option (Option String) → Types.Policy → W → Result String CreatePolicyResponse × W
    create_policy_with_response params body w = parsed (parse_create_policy_response codec) (
        send c editors (new_create_policy_request urls codec.marshal_policy c.server params body) w)

    unfoldable pub delete_policy_with_response : String → W → Result String DeletePolicyResponse × W
    delete_policy_with_response policy_id w =
        parsed (parse_delete_policy_response codec)
          (send c editors (new_delete_policy_request urls c.server policy_id) w)

    unfoldable pub get_policy_with_response : String → W → Result String GetPolicyResponse × W
    get_policy_with_response policy_id w =
        parsed (parse_get_policy_response codec)
          (send c editors (new_get_policy_request urls c.server policy_id) w)

    unfoldable pub update_policy_with_body_with_response :
        String → String → String → W → Result String UpdatePolicyResponse × W
    update_policy_with_body_with_response policy_id content_type body w =
        parsed (parse_update_policy_response codec) (
          send c editors
            (new_update_policy_request_with_body urls c.server policy_id content_type body) w)

    unfoldable pub update_policy_with_response :
        String → Types.Policy → W → Result String UpdatePolicyResponse × W
    update_policy_with_response policy_id body w = parsed (parse_update_policy_response codec) (
        send c editors (new_update_policy_request urls codec.marshal_policy c.server policy_id body)
          w)
