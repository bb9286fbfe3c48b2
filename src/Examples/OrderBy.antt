-- ===== src/Examples/OrderBy.antt =====
-- An ordering that a client sends.
use policy_manager.Base.{◌≡◌, refl, ◌⊎◌, String, List, ◌==◌, ok, All, if◌then◌else◌}
use policy_manager.Base.Text.{join, trim_space, split, fields, sprintf}
use policy_manager.Service.OrderBy.{parse_order_by, default_order_by}
use policy_manager.Service.OrderBy.Laws.{IsClause, parse_order_by-IsClause}

-- Upper case for the two words that matter here.
abbrev to_upper : String → String
to_upper s = if s == "asc" then "ASC" else if s == "desc" then "DESC" else s

parsed : parse_order_by to_upper "priority desc, create_time" ≡ ok "priority DESC, create_time ASC"
unfolding parse_order_by trim_space split fields join sprintf
parsed = refl

parse_order_by-IsClause_example :
    ("priority DESC, create_time ASC" ≡ default_order_by)
    ⊎ ((clauses : List String) × All IsClause clauses
        × ("priority DESC, create_time ASC" ≡ join ", " clauses))
parse_order_by-IsClause_example =
    parse_order_by-IsClause to_upper "priority desc, create_time" "priority DESC, create_time ASC"
      parsed
