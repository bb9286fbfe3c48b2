-- ===== src/Client/Requests.antt =====
-- pkg/client/client.gen.go: the requests of the client. net/url and the runtime of oapi-codegen are a
-- parameter; `U` is the type of a parsed URL.
pub mod Calls
use Prim.Native.Char.{code}
use Prim.Native.String
use policy_manager.Base.{
  ℕ, eqb, String, Option, none, some, List, [], ◌∷◌, ◌++◌, Result, ok, err, ◌>>=◌, if◌then◌else◌,
}
use policy_manager.Base.Int.{ℤ}
use policy_manager.Base.Dict.{Dict, lookup, insert}
use policy_manager.Base.Text.{sprintf}
use policy_manager.Api.Types
use policy_manager.Api.Types.{ListPoliciesParams}

-- url.Values
abbrev pub Values : Type 0
Values = Dict (List String)

pub record Urls (U : Type 0) : Type 0 where
  -- url.Parse, (*URL).Parse and (*URL).String
  pub parse : String → Result String U
  pub parse_reference : U → String → Result String U
  pub url_string : U → String
  -- (*URL).Query, the assignment to RawQuery, (Values).Encode and url.ParseQuery
  pub query : U → Values
  pub set_raw_query : String → U → U
  pub encode : Values → String
  pub parse_query : String → Result String Values
  -- runtime.StyleParamWithLocation at the styles "form" and "simple"
  pub style_string : String → String → Result String String
  pub style_int32 : String → ℤ → Result String String
  pub style_path : String → String → Result String String
  -- the error of http.NewRequest, from the method and the URL
  pub check_request : String → String → Result String (Unit {0})

-- *http.Request
pub record Request : Type 0 where
  pub method : String
  pub url : String
  pub header : Dict String
  pub body : Option String

existing : Option (List String) → List String
existing none = []
existing (some vs) = vs

-- `(Values).Add`
unfoldable pub add : String → String → Values → Values
unfolding existing
add k v values = insert k (existing (lookup k values) ++ (v ∷ [])) values

add_each : String → List String → Values → Values
add_each k [] values = values
add_each k (v ∷ vs) values = add_each k vs (add k v values)

-- The loop over what has been parsed.
unfoldable pub add_all : Values → Values → Values
unfolding add_each
add_all [] values = values
add_all ((k, vs) ∷ parsed) values = add_all parsed (add_each k vs values)

-- `if operationPath[0] == '/' { operationPath = "." + operationPath }`
unfoldable pub relative_path : String → String
relative_path String.[] = ""
relative_path (String.◌∷◌ c s) =
    if eqb (code c) 47 then String.◌++◌ "." (String.◌∷◌ c s) else String.◌∷◌ c s

module _ {U : Type 0} (urls : Urls U) where
  unfoldable pub operation_url : String → String → Result String U
  operation_url server path = do
    server_url ← urls.parse server
    urls.parse_reference server_url (relative_path path)

  unfoldable pub new_request : String → U → Dict String → Option String → Result String Request
  new_request method url header body = do
    checked ← urls.check_request method (urls.url_string url)
    ok (record { method = method; url = urls.url_string url; header = header; body = body })

  -- One of the blocks `if params.X != nil`.
  add_param : {A : Type 0} → (A → Result String String) → Option A → Values → Result String Values
  add_param style none values = ok values
  add_param style (some v) values = do
    query_frag ← style v
    parsed ← urls.parse_query query_frag
    ok (add_all parsed values)

  unfoldable pub new_get_health_request : String → Result String Request
  unfolding operation_url new_request
  new_get_health_request server = do
    url ← operation_url server "/health"
    new_request "GET" url [] none

  add_list_params : Option ListPoliciesParams → U → Result String U
  unfolding add_param
  add_list_params none url = ok url
  add_list_params (some params) url = do
    a ← add_param (urls.style_string "page_token") params.page_token (urls.query url)
    b ← add_param (urls.style_int32 "max_page_size") params.max_page_size a
    c ← add_param (urls.style_string "filter") params.filter b
    d ← add_param (urls.style_string "order_by") params.order_by c
    ok (urls.set_raw_query (urls.encode d) url)

  unfoldable pub new_list_policies_request :
      String → Option ListPoliciesParams → Result String Request
  unfolding operation_url new_request add_list_params
  new_list_policies_request server params = do
    url ← operation_url server "/policies"
    with_params ← add_list_params params url
    new_request "GET" with_params [] none

  -- CreatePolicyParams is its one field.
  add_create_params : Option (Option String) → U → Result String U
  unfolding add_param
  add_create_params none url = ok url
  add_create_params (some id) url = do
    a ← add_param (urls.style_string "id") id (urls.query url)
    ok (urls.set_raw_query (urls.encode a) url)

  unfoldable pub new_create_policy_request_with_body :
      String → Option (Option String) → String → String → Result String Request
  unfolding operation_url new_request add_create_params
  new_create_policy_request_with_body server params content_type body = do
    url ← operation_url server "/policies"
    with_params ← add_create_params params url
    new_request "POST" with_params (("Content-Type", content_type) ∷ []) (some body)

  -- The path of the three operations on one policy.
  policy_url : String → String → Result String U
  unfolding operation_url
  policy_url server policy_id = do
    path_param0 ← urls.style_path "policyId" policy_id
    operation_url server (sprintf ("/policies/" ∷ path_param0 ∷ []))

  unfoldable pub new_delete_policy_request : String → String → Result String Request
  unfolding policy_url new_request
  new_delete_policy_request server policy_id = do
    url ← policy_url server policy_id
    new_request "DELETE" url [] none

  unfoldable pub new_get_policy_request : String → String → Result String Request
  unfolding policy_url new_request
  new_get_policy_request server policy_id = do
    url ← policy_url server policy_id
    new_request "GET" url [] none

  unfoldable pub new_update_policy_request_with_body :
      String → String → String → String → Result String Request
  unfolding policy_url new_request
  new_update_policy_request_with_body server policy_id content_type body = do
    url ← policy_url server policy_id
    new_request "PATCH" url (("Content-Type", content_type) ∷ []) (some body)

  -- `marshal` is json.Marshal of the policy.
  module _ (marshal : Types.Policy → Result String String) where
    unfoldable pub new_create_policy_request :
        String → Option (Option String) → Types.Policy → Result String Request
    new_create_policy_request server params body = do
      buf ← marshal body
      new_create_policy_request_with_body server params "application/json" buf

    unfoldable pub new_update_policy_request :
        String → String → Types.Policy → Result String Request
    new_update_policy_request server policy_id body = do
      buf ← marshal body
      new_update_policy_request_with_body server policy_id "application/merge-patch+json" buf
