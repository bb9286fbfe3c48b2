-- ===== src/Service/Policies/Listing/Pages.antt =====
-- internal/service/policy.go: one page of a listing.
use policy_manager.Base.{
  ◌≡◌, refl, String, Option, none, some, ◌==◌, map, Result, ok, err, ◌>>=◌, if◌then◌else◌,
}
use policy_manager.Base.Int.{ℤ}
use policy_manager.Api.Types
use policy_manager.Store.Model.{PolicyFilter, PolicyListOptions, PolicyListResult}
use policy_manager.Store.Interface.{PolicyStore}
use policy_manager.Service.Errors.{ServiceError}
use policy_manager.Service.Converter.{or_default, db_to_api_model}
use policy_manager.Service.OrderBy.{parse_order_by}
use policy_manager.Service.Policies.Listing.{
  filter_option, page_size_option, get_list_options, response_of, list_policies,
}

options_injective :
    {a b : PolicyListOptions}
    → ◌≡◌ {A = Result ServiceError PolicyListOptions} (ok a) (ok b)
    → a ≡ b
options_injective h = cc

-- A page of the store as the API shows it.
abbrev pub shown : PolicyListResult → Types.PolicyList
shown result = record {
  next_page_token = if result.next_page_token == "" then none else some result.next_page_token;
  policies = map db_to_api_model result.policies;
}

retokened :
    (f : Result ServiceError (Option PolicyFilter)) (o : Result ServiceError String)
    (n : Result ServiceError ℤ) (token : Option String) (opts : PolicyListOptions)
    → (f >>= λ filter. o >>= λ order. n >>= λ size.
        ok (record { filter = filter; order_by = order; page_token = none; page_size = size }))
      ≡ ok opts
    → (f >>= λ filter. o >>= λ order. n >>= λ size.
        ok (record { filter = filter; order_by = order; page_token = token; page_size = size }))
      ≡ ok (record opts { page_token = token })
retokened (err e) o n token opts h = cc
retokened (ok f) (err e) n token opts h = cc
retokened (ok f) (ok o) (err e) token opts h = cc
retokened (ok f) (ok o) (ok n) token opts h =
    λ i. ok (record (options_injective h i) { page_token = token })

module _ (to_upper : String → String) where
  -- The options with another token.
  pub get_list_options-token :
      (filter order_by token : Option String) (page_size : Option ℤ) (opts : PolicyListOptions)
      → get_list_options to_upper filter order_by none page_size ≡ ok opts
      → get_list_options to_upper filter order_by token page_size
        ≡ ok (record opts { page_token = token })
  unfolding get_list_options
  get_list_options-token filter order_by token page_size opts h =
      retokened (filter_option filter) (parse_order_by to_upper (or_default "" order_by))
        (page_size_option page_size) token opts h

  pub list_policies-shown :
      {D : Type 0} (store : PolicyStore D) (filter order_by token : Option String)
      (page_size : Option ℤ) (d : D) (opts : PolicyListOptions) (result : PolicyListResult)
      → get_list_options to_upper filter order_by token page_size ≡ ok opts
      → store.list opts d ≡ ok result
      → list_policies to_upper store filter order_by token page_size d ≡ ok (shown result)
  unfolding list_policies response_of
  list_policies-shown store filter order_by token page_size d opts result given listed =
      rw given (rw listed refl)
