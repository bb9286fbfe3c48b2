-- ===== src/Api/Types.antt =====
-- api/v1alpha1/types.gen.go: a pointer field is an `Option`.
use policy_manager.Base.{ℕ, Bool, String, Option, List}
use policy_manager.Base.Int.{ℤ}
use policy_manager.Base.Dict.{Dict}

pub record Policy : Type 0 where
  pub create_time : Option ℕ
  pub description : Option String
  pub display_name : Option String
  pub enabled : Option Bool
  pub id : Option String
  pub label_selector : Option (Dict String)
  pub path : Option String
  pub policy_type : Option String
  pub priority : Option ℤ
  pub rego_code : Option String
  pub update_time : Option ℕ

pub record Health : Type 0 where
  pub path : Option String
  pub status : String

pub record PolicyList : Type 0 where
  pub next_page_token : Option String
  pub policies : List Policy

pub record ListPoliciesParams : Type 0 where
  pub page_token : Option String
  pub max_page_size : Option ℤ
  pub filter : Option String
  pub order_by : Option String

-- The constants of ErrorType.
pub data ErrorCode : Type 0 where
  aborted already_exists deadline_exceeded failed_precondition internal invalid_argument not_found
        out_of_range permission_denied resource_exhausted unauthenticated unavailable
        unimplemented :
      ErrorCode

-- An RFC 7807 body.
pub record Error : Type 0 where
  pub detail : Option String
  pub instance_id : Option String
  pub status : ℕ
  pub title : String
  pub type : ErrorCode
