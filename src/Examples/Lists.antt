-- ===== src/Examples/Lists.antt =====
-- Listings, filters and tokens at concrete values, over two rows.
use mathlib.Core.List.{Perm}
use policy_manager.Base.{
  ◌≡◌, refl, ◌⊎◌, true, false, String, none, some, List, [], ◌∷◌, leb, ltb, take, drop, length, ok,
  arith, if◌then◌else◌,
}
use policy_manager.Base.Ascii.{codes}
use policy_manager.Base.Int.{pos}
use policy_manager.Store.Model.{Policy, PolicyFilter, PolicyListOptions}
use policy_manager.Store.Interface.{priority_policy_type_taken}
use policy_manager.Store.Database.{duplicated_key}
use policy_manager.Store.Database.Relational.{select, meets, meets_all}
use policy_manager.Store.Policies.{list}
use policy_manager.Store.Policies.Errors.{map_unique_constraint_error}
use policy_manager.Store.Policies.Errors.Laws.{
  taken_by_any, passed_on, map_unique_constraint_error-taken,
}
use policy_manager.Store.Policies.Listing.Wanted.{kept, wanted, text_for, no_token, list-wanted}
use policy_manager.Service.Filter.{parse_filter, count_and}
use policy_manager.Service.Filter.Laws.{IsFilter, parse_filter-IsFilter}
use policy_manager.Service.Policies.Listing.{get_list_options, page_size_option}
use policy_manager.Service.OrderBy.{parse_order_by, default_order_by}
use policy_manager.Service.Policies.Listing.Laws.{IsListing, get_list_options-IsListing}
use policy_manager.Examples.Database.{rows_database, rows_database-IsRelational}
use policy_manager.Examples.Policies.{row}

abbrev other_row : Policy
other_row = record row {
  id = "second";
  display_name = "Second";
  policy_type = "USER";
  enabled = false;
}

abbrev rows : List Policy
rows = row ∷ other_row ∷ []

-- Texts in lower case.
abbrev same_text : String → String
same_text s = s

abbrev first_page : PolicyListOptions
first_page = record { filter = none; order_by = ""; page_token = none; page_size = pos 1 }

list-wanted_example :
    (listed : List Policy) × Perm listed (kept (wanted none) rows)
    × (true ≡ true)
    × (list rows_database same_text (some first_page) rows
        ≡ ok (record {
          policies = take 1 (drop 0 listed);
          next_page_token = if ltb 1 (length (drop 0 listed)) then text_for 1 else "";
        }))
list-wanted_example =
    list-wanted rows_database same_text rows_database-IsRelational first_page rows 0 no_token
      (omega arith)

-- A second creation with the priority and the type of the first row.
abbrev rival : Policy
rival = record row { id = "rival"; display_name = "Rival" }

map_unique_constraint_error-taken_example :
    map_unique_constraint_error rows_database same_text duplicated_key rival false rows
    ≡ taken_by_any rival rows (passed_on duplicated_key)
map_unique_constraint_error-taken_example =
    map_unique_constraint_error-taken rows_database same_text rows_database-IsRelational
      duplicated_key rival false rows

rival_refused :
    map_unique_constraint_error rows_database same_text duplicated_key rival false rows
    ≡ priority_policy_type_taken
unfolding map_unique_constraint_error select meets meets_all
rival_refused = refl

abbrev filter : PolicyFilter
filter = record { policy_type = some "USER"; enabled = some true }

filter_parsed : parse_filter "policy_type = 'USER' AND enabled=true" ≡ ok (some filter)
unfolding parse_filter codes
filter_parsed = refl

parse_filter-IsFilter_example :
    ((◌≡◌ {A = String} "policy_type = 'USER' AND enabled=true" "") × (some filter ≡ none))
    ⊎ ((f : PolicyFilter) × (some filter ≡ some f)
        × IsFilter f
        × (leb (count_and "policy_type = 'USER' AND enabled=true") 1 ≡ true))
parse_filter-IsFilter_example =
    parse_filter-IsFilter "policy_type = 'USER' AND enabled=true" (some filter) filter_parsed

abbrev options : PolicyListOptions
options = record {
  filter = some filter;
  order_by = default_order_by;
  page_token = some "MTAwMA==";
  page_size = pos 1000;
}

options_accepted :
    get_list_options same_text
      (some "policy_type = 'USER' AND enabled=true")
      none
      (some "MTAwMA==")
      (some (pos 1000))
    ≡ ok options
unfolding get_list_options parse_filter codes page_size_option parse_order_by
options_accepted = refl

get_list_options-IsListing_example : IsListing options × (options.page_token ≡ some "MTAwMA==")
get_list_options-IsListing_example =
    get_list_options-IsListing same_text (some "policy_type = 'USER' AND enabled=true") none
      (some "MTAwMA==") (some (pos 1000)) options options_accepted
