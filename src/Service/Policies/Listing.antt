-- ===== src/Service/Policies/Listing.antt =====
-- internal/service/policy.go: `getListOptions` and `ListPolicies`.
pub mod Laws
pub mod Pages
use policy_manager.Base.{
  ℕ, Bool, true, false, String, Option, none, some, List, [], ◌∷◌, map, ◌==◌, Result, ok, err,
  ◌>>=◌, map_err, if◌then◌else◌,
}
use policy_manager.Base.Int.{ℤ, pos, ltb_ℤ}
use policy_manager.Api.Types
use policy_manager.Store.Model.{PolicyFilter, PolicyListOptions, PolicyListResult}
use policy_manager.Store.Interface.{PolicyStore, StoreError, store_error_text}
use policy_manager.Service.Errors.{ServiceError, new_invalid_argument_error, new_internal_error}
use policy_manager.Service.Filter.{parse_filter}
use policy_manager.Service.OrderBy.{parse_order_by}
use policy_manager.Service.Converter.{or_default, db_to_api_model}

-- `if filter != nil && *filter != ""`
filter_option : Option String → Result ServiceError (Option PolicyFilter)
filter_option none = ok none
filter_option (some filter) = if filter == "" then ok none else parse_filter filter

unfoldable pub page_size_option : Option ℤ → Result ServiceError ℤ
page_size_option none = ok (pos 50)
page_size_option (some page_size) =
    if ltb_ℤ page_size (pos 1)
    then err (new_invalid_argument_error "Invalid page size" "Page size must be at least 1")
    else if ltb_ℤ (pos 1000) page_size
    then err (new_invalid_argument_error "Invalid page size" "Page size must not exceed 1000")
    else ok page_size

-- `to_upper` is strings.ToUpper.
module _ (to_upper : String → String) where
  unfoldable pub get_list_options :
      Option String
      → Option String
      → Option String
      → Option ℤ
      → Result ServiceError PolicyListOptions
  unfolding filter_option
  get_list_options filter order_by page_token page_size = do
    policy_filter ← filter_option filter
    order ← parse_order_by to_upper (or_default "" order_by)
    size ← page_size_option page_size
    ok (record {
      filter = policy_filter;
      order_by = order;
      page_token = page_token;
      page_size = size;
    })

  response_of : PolicyListResult → Types.PolicyList
  response_of result = record {
    next_page_token = if result.next_page_token == "" then none else some result.next_page_token;
    policies = map db_to_api_model result.policies;
  }

  -- The text of a store error is the detail of the service's.
  list_error : StoreError → ServiceError
  list_error e =
      new_internal_error "Failed to list policies" (store_error_text e) (some (store_error_text e))

  unfoldable pub list_policies :
      {D : Type 0}
      → PolicyStore D
      → Option String
      → Option String
      → Option String
      → Option ℤ
      → D
      → Result ServiceError Types.PolicyList
  unfolding response_of list_error
  list_policies store filter order_by page_token page_size db =
      get_list_options filter order_by page_token page_size >>= λ opts.
      map_err list_error (store.list opts db) >>= λ result. ok (response_of result)
