-- ===== src/Api/Server/Wrapper.antt =====
-- internal/api/server/server.gen.go: the wrapper, which binds a request's parameters for the strict
-- handler, and the routes. `U` is the type of the values of a query.
use policy_manager.Base.{String, Option, Result, ok, err, ◌>>=◌, map_err, List, [], ◌∷◌}
use policy_manager.Base.Int.{ℤ}
use policy_manager.Base.Text.{sprintf}
use policy_manager.Http.{Writer, new_writer, http_error, HttpResponse, received}
use policy_manager.Api.Codec.{Codec}
use policy_manager.Api.Server.{ListPoliciesParams}
use policy_manager.Api.Server.Strict.{StrictServer}
use policy_manager.Api.Server.Strict

-- runtime.BindQueryParameter at *string and at *int32, and runtime.BindStyledParameterWithOptions at the
-- path parameter.
pub record Binding (U : Type 0) : Type 0 where
  pub bind_string : String → U → Result String (Option String)
  pub bind_int32 : String → U → Result String (Option ℤ)
  pub bind_path : String → String → Result String String

-- `(InvalidParamFormatError).Error`
unfoldable pub invalid_param_format : String → String → String
invalid_param_format param_name e =
    sprintf ("Invalid format for parameter " ∷ param_name ∷ ": " ∷ e ∷ [])

-- The default ErrorHandlerFunc of `HandlerWithOptions`.
abbrev pub bind_error : String → Writer → Writer
bind_error message w = http_error message 400 w

-- One binding with its error.
abbrev pub bound {ℓ} : {A : Type ℓ} → String → Result String A → Result String A
bound param_name r = map_err (invalid_param_format param_name) r

-- A request as the wrapper reads it; `policy_id` is chi.URLParam of "policyId".
pub record HttpRequest (U : Type 0) : Type 0 where
  pub policy_id : String
  pub query : U
  pub body : String

pub data Operation : Type 0 where
  get_health list_policies create_policy delete_policy get_policy update_policy : Operation

-- The routes of `HandlerWithOptions`.
unfoldable pub routes : String → List (String × String × Operation)
routes base_url =
    ("GET", sprintf (base_url ∷ "/health" ∷ []), get_health)
    ∷ ("GET", sprintf (base_url ∷ "/policies" ∷ []), list_policies)
    ∷ ("POST", sprintf (base_url ∷ "/policies" ∷ []), create_policy)
    ∷ ("DELETE", sprintf (base_url ∷ "/policies/{policyId}" ∷ []), delete_policy)
    ∷ ("GET", sprintf (base_url ∷ "/policies/{policyId}" ∷ []), get_policy)
    ∷ ("PATCH", sprintf (base_url ∷ "/policies/{policyId}" ∷ []), update_policy)
    ∷ []

module _ {W U : Type 0} (binding : Binding U) (codec : Codec) (ssi : StrictServer W) where
  list_params : U → Result String ListPoliciesParams
  list_params query = do
    page_token ← bound "page_token" (binding.bind_string "page_token" query)
    max_page_size ← bound "max_page_size" (binding.bind_int32 "max_page_size" query)
    filter ← bound "filter" (binding.bind_string "filter" query)
    order_by ← bound "order_by" (binding.bind_string "order_by" query)
    ok (record {
      page_token = page_token;
      max_page_size = max_page_size;
      filter = filter;
      order_by = order_by;
    })

  list_bound : Result String ListPoliciesParams → Writer → W → Writer
  list_bound (err e) w s = bind_error e w
  list_bound (ok params) w s = Strict.list_policies codec ssi params w s

  create_bound : Result String (Option String) → String → Writer → W → Writer × W
  create_bound (err e) body w s = (bind_error e w, s)
  create_bound (ok id) body w s = Strict.create_policy codec ssi id body w s

  delete_bound : Result String String → Writer → W → Writer × W
  delete_bound (err e) w s = (bind_error e w, s)
  delete_bound (ok policy_id) w s = Strict.delete_policy codec ssi policy_id w s

  get_bound : Result String String → Writer → W → Writer
  get_bound (err e) w s = bind_error e w
  get_bound (ok policy_id) w s = Strict.get_policy codec ssi policy_id w s

  update_bound : Result String String → String → Writer → W → Writer × W
  update_bound (err e) body w s = (bind_error e w, s)
  update_bound (ok policy_id) body w s = Strict.update_policy codec ssi policy_id body w s

  path_id : HttpRequest U → Result String String
  path_id r = bound "policyId" (binding.bind_path "policyId" r.policy_id)

  -- The methods of `ServerInterfaceWrapper`, with no middlewares.
  unfoldable pub wrapped : Operation → HttpRequest U → Writer → W → Writer × W
  unfolding list_params list_bound create_bound delete_bound get_bound update_bound path_id
  wrapped get_health r w s = (Strict.get_health codec ssi w s, s)
  wrapped list_policies r w s = (list_bound (list_params r.query) w s, s)
  wrapped create_policy r w s =
      create_bound (bound "id" (binding.bind_string "id" r.query)) r.body w s
  wrapped delete_policy r w s = delete_bound (path_id r) w s
  wrapped get_policy r w s = (get_bound (path_id r) w s, s)
  wrapped update_policy r w s = update_bound (path_id r) r.body w s

  -- A request that has been routed, from the wire to the wire.
  unfoldable pub serve : Operation → HttpRequest U → W → HttpResponse × W
  serve operation r s = let (w, s') = wrapped operation r new_writer s in (received w, s')
