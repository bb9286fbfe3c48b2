-- ===== src/Examples/Paging.antt =====
-- A client that reads two rows in pages of one.
use policy_manager.Base.{String, none, some, List, [], ◌∷◌}
use policy_manager.Base.Int.{ℤ, pos}
use policy_manager.Api.Server.{ListPoliciesParams}
use policy_manager.Store.Model.{Policy, PolicyListOptions}
use policy_manager.Store.Policies.Listing.{listed_rows}
use policy_manager.Service.OrderBy.{default_order_by}
use policy_manager.Service.Policies.Operations.{World}
use policy_manager.Examples.Database.{rows_database, rows_database-IsRelational}
use policy_manager.Examples.Policies.{row}

abbrev same_text : String → String
same_text s = s

abbrev decimal : ℤ → String
decimal z = "10"

abbrev world : World (List Policy) String
world = record { db = row ∷ record row { id = "second" } ∷ []; engine = record { queries = [] } }

abbrev params : ListPoliciesParams
params = record { page_token = none; max_page_size = some (pos 1); filter = none; order_by = none }

abbrev options : PolicyListOptions
options = record {
  filter = none;
  order_by = default_order_by;
  page_token = none;
  page_size = pos 1;
}

abbrev listed : List Policy
listed = listed_rows rows_database same_text rows_database-IsRelational options world.db
