-- ===== src/Handlers/Policies/Paging.antt =====
-- internal/handlers/v1alpha1/policy.go, ListPolicies: a client that follows the page tokens.
use policy_manager.Base.{ℕ, zero, suc, String, Option, none, some, List, ◌++◌}
use policy_manager.Base.Int.{ℤ}
use policy_manager.Opa.Engine.{Rego}
use policy_manager.Api.Server
use policy_manager.Api.Server.{
  ListPoliciesParams, ListPoliciesResponse, list_policies_200, list_policies_400, list_policies_401,
  list_policies_403, list_policies_500,
}
use policy_manager.Store.Model.{Policy}
use policy_manager.Store.Database.{Database}
use policy_manager.Store.Database.Relational.{IsRelational}
use policy_manager.Store.Policies.{new_policy}
use policy_manager.Service.Converter.{db_to_api_model}
use policy_manager.Service.Policies.Operations.{World}
use policy_manager.Handlers.Conversions.{policy_v1_alpha1_to_server}
use policy_manager.Handlers.Policies.Laws.{api}
use policy_manager.Handlers.Policies.{list_policies}

-- The order of a listing that is asked for no other.
abbrev pub by_default : String
by_default = "policy_type ASC, priority ASC, id ASC"

-- A row as a client sees it.
abbrev pub seen : Policy → Server.Policy
seen p = policy_v1_alpha1_to_server (db_to_api_model p)

-- The client's list: the pages one after the other, `next` being the ones behind a token. There is none
-- if a call is refused.
abbrev prepend : List Server.Policy → Option (List Server.Policy) → Option (List Server.Policy)
prepend ps none = none
prepend ps (some qs) = some (ps ++ qs)

abbrev after_page :
    (Option String → Option (List Server.Policy))
    → List Server.Policy
    → Option String
    → Option (List Server.Policy)
after_page next ps none = some ps
after_page next ps (some token) = prepend ps (next (some token))

abbrev with_page :
    (Option String → Option (List Server.Policy))
    → ListPoliciesResponse
    → Option (List Server.Policy)
with_page next (list_policies_200 page) = after_page next page.policies page.next_page_token
with_page next (list_policies_400 e) = none
with_page next (list_policies_401 e) = none
with_page next (list_policies_403 e) = none
with_page next (list_policies_500 e) = none

module _ {D F K Q : Type 0} (db : Database D) (to_lower : String → String)
    (relational : IsRelational db) (rego : Rego F K Q) (decimal : ℤ → String)
    (to_upper : String → String) (w : World D Q) where
  abbrev pub params_at : ListPoliciesParams → Option String → ListPoliciesParams
  params_at params token = record params { page_token = token }

  -- A client that starts at a token and follows the tokens of the responses, for so many calls.
  unfoldable pub collect : ℕ → ListPoliciesParams → Option String → Option (List Server.Policy)
  collect zero params token = none
  collect (suc calls) params token = with_page (collect calls params) (
      list_policies (api (new_policy db to_lower) rego decimal to_upper "") (params_at params token)
        w)
