-- ===== src/Store/Model.antt =====
-- internal/store/model/policy.go, and the types of internal/store/policy.go.
use policy_manager.Base.{ℕ, Bool, String, Option, List}
use policy_manager.Base.Int.{ℤ}
use policy_manager.Base.Dict.{Dict}

-- A time.Time is the number of its instant.
pub record Policy : Type 0 where
  pub id : String
  pub display_name : String
  pub description : String
  pub policy_type : String
  pub label_selector : Dict String
  pub priority : ℤ
  pub rego_code : String
  pub enabled : Bool
  pub create_time : ℕ
  pub update_time : ℕ

pub record PolicyFilter : Type 0 where
  pub policy_type : Option String
  pub enabled : Option Bool

pub record PolicyListOptions : Type 0 where
  pub filter : Option PolicyFilter
  pub order_by : String
  pub page_token : Option String
  pub page_size : ℤ

pub record PolicyListResult : Type 0 where
  pub policies : List Policy
  pub next_page_token : String
