-- ===== src/Api/Server.antt =====
-- internal/api/server/server.gen.go: the types of the API server.
pub mod Visits
pub mod Strict
pub mod Wrapper
use policy_manager.Base.{ℕ, Bool, String, Option, List}
use policy_manager.Base.Int.{ℤ}
use policy_manager.Base.Dict.{Dict}
use policy_manager.Api.Types.{ErrorCode}

pub record Policy : Type 0 where
  pub create_time : Option ℕ
  pub description : Option String
  pub display_name : Option String
  pub enabled : Option Bool
  pub id : Option String
  pub label_selector : Option (Dict String)
  pub path : Option String
  pub policy_type : Option String
  pub priority : Option ℤ
  pub rego_code : Option String
  pub update_time : Option ℕ

pub record PolicyList : Type 0 where
  pub next_page_token : Option String
  pub policies : List Policy

pub record Error : Type 0 where
  pub detail : Option String
  pub instance_id : Option String
  pub status : ℕ
  pub title : String
  pub type : ErrorCode

pub record ListPoliciesParams : Type 0 where
  pub page_token : Option String
  pub max_page_size : Option ℤ
  pub filter : Option String
  pub order_by : Option String

pub record Health : Type 0 where
  pub path : Option String
  pub status : String

-- The responses of each operation; the number is the HTTP status.
pub data GetHealthResponse : Type 0 where
  get_health_200 : Health → GetHealthResponse

pub data CreatePolicyResponse : Type 0 where
  create_policy_201 : (location : String) → Policy → CreatePolicyResponse
  create_policy_400 create_policy_401 create_policy_403 create_policy_409 create_policy_422
        create_policy_500 :
      Error → CreatePolicyResponse

pub data GetPolicyResponse : Type 0 where
  get_policy_200 : Policy → GetPolicyResponse
  get_policy_401 get_policy_403 get_policy_404 get_policy_500 : Error → GetPolicyResponse

pub data ListPoliciesResponse : Type 0 where
  list_policies_200 : PolicyList → ListPoliciesResponse
  list_policies_400 list_policies_401 list_policies_403 list_policies_500 :
      Error → ListPoliciesResponse

pub data UpdatePolicyResponse : Type 0 where
  update_policy_200 : Policy → UpdatePolicyResponse
  update_policy_400 update_policy_401 update_policy_403 update_policy_404 update_policy_409
        update_policy_500 :
      Error → UpdatePolicyResponse

pub data DeletePolicyResponse : Type 0 where
  delete_policy_204 : DeletePolicyResponse
  delete_policy_401 delete_policy_403 delete_policy_404 delete_policy_500 :
      Error → DeletePolicyResponse
