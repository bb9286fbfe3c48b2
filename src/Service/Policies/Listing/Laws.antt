-- ===== src/Service/Policies/Listing/Laws.antt =====
-- internal/service/policy.go, getListOptions: what a listing asks of the store.
use policy_manager.Base.{
  ◌≡◌, refl, subst, ◌⊎◌, inl, inr, String, Option, none, some, List, ◌==◌, Result, ok, >>=-eq-ok,
  Bool-cases, All, arith,
}
use policy_manager.Base.Int.{ℤ, pos, ◌≤ℤ◌}
use policy_manager.Base.Text.{join}
use policy_manager.Store.Model.{PolicyFilter, PolicyListOptions}
use policy_manager.Service.Errors.{ServiceError}
use policy_manager.Service.Filter.Laws.{IsFilter, parse_filter-IsFilter}
use policy_manager.Service.OrderBy.{parse_order_by, default_order_by}
use policy_manager.Service.OrderBy.Laws.{IsClause, parse_order_by-IsClause}
use policy_manager.Service.Converter.{or_default}
use policy_manager.Service.Policies.Listing.{filter_option, page_size_option, get_list_options}

-- A filter that restricts something, an ordering of supported fields, and a page of 1 to 1000 rows.
pub record IsListing (opts : PolicyListOptions) : Type 0 where
  pub filter : (opts.filter ≡ none) ⊎ ((f : PolicyFilter) × (opts.filter ≡ some f) × IsFilter f)
  pub order_by :
      (opts.order_by ≡ default_order_by)
      ⊎ ((clauses : List String) × All IsClause clauses × (opts.order_by ≡ join ", " clauses))
  pub at_least : pos 1 ≤ℤ opts.page_size
  pub at_most : opts.page_size ≤ℤ pos 1000

page_size_option-range :
    (p : Option ℤ) (size : ℤ) → page_size_option p ≡ ok size → (pos 1 ≤ℤ size) × (size ≤ℤ pos 1000)
unfolding page_size_option
page_size_option-range none size h = ground arith
page_size_option-range (some p) size h = ground arith

none_of :
    {r : Option PolicyFilter}
    → ◌≡◌ {A = Result ServiceError (Option PolicyFilter)} (ok none) (ok r)
    → r ≡ none
none_of h = cc

filter_option-cases :
    (filter : Option String) (r : Option PolicyFilter)
    → filter_option filter ≡ ok r
    → (r ≡ none) ⊎ ((f : PolicyFilter) × (r ≡ some f) × IsFilter f)
unfolding filter_option
filter_option-cases none r h = inl cc
filter_option-cases (some s) r h = elim (Bool-cases (s == "")) [
  | inl e ↦ inl (none_of (rw e at h))
  | inr e ↦ elim (parse_filter-IsFilter s r (rw e at h)) [
    | inl (empty, absent) ↦ inl absent
    | inr (f, same, known, ands) ↦ inr (f, same, known)
  ]
]

options_injective :
    {a b : PolicyListOptions}
    → ◌≡◌ {A = Result ServiceError PolicyListOptions} (ok a) (ok b)
    → a ≡ b
options_injective h = cc

module _ (to_upper : String → String) where
  -- Whatever the client sends, a listing that is accepted asks the store for a page of 1 to 1000 rows,
  -- under a filter that is absent or restricts the type or the enabled flag, in the default order or in
  -- one of supported fields each with ASC or DESC, and with the client's token.
  pub get_list_options-IsListing :
      (filter order_by page_token : Option String) (page_size : Option ℤ) (opts : PolicyListOptions)
      → get_list_options to_upper filter order_by page_token page_size ≡ ok opts
      → IsListing opts × (opts.page_token ≡ page_token)
  unfolding get_list_options
  get_list_options-IsListing filter order_by page_token page_size opts h =
      let (f, filtered, h1) = >>=-eq-ok (filter_option filter) _ h in
      let (o, ordered, h2) = >>=-eq-ok (parse_order_by to_upper (or_default "" order_by)) _ h1 in
      let (n, sized, h3) = >>=-eq-ok (page_size_option page_size) _ h2 in
      let (lo, hi) = page_size_option-range page_size n sized in
      subst (λ r. IsListing r × (r.page_token ≡ page_token)) (options_injective h3)
        (
          record {
            filter = filter_option-cases filter f filtered;
            order_by = parse_order_by-IsClause to_upper (or_default "" order_by) o ordered;
            at_least = lo;
            at_most = hi;
          },
          refl,
        )
