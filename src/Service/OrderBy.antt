-- ===== src/Service/OrderBy.antt =====
-- internal/service/orderby.go
pub mod Laws
use policy_manager.Base.{
  ℕ, Bool, true, false, not, ◌||◌, ◌&&◌, String, List, [], ◌∷◌, ◌++◌, ◌==◌, Result, ok, err, ◌>>=◌,
  if◌then◌else◌,
}
use policy_manager.Base.Text.{trim_space, split, fields, join, sprintf}
use policy_manager.Service.Errors.{ServiceError, new_invalid_argument_error}

abbrev pub default_order_by : String
default_order_by = "policy_type ASC, priority ASC, id ASC"

abbrev pub is_supported : String → Bool
is_supported field = field == "priority" || (field == "display_name" || field == "create_time")

-- `to_upper` is strings.ToUpper.
module _ (to_upper : String → String) where
  -- The direction that the tokens after the field give.
  direction_of : List String → Result ServiceError String
  direction_of [] = ok "ASC"
  direction_of (token ∷ tokens) =
      if not (to_upper token == "ASC") && not (to_upper token == "DESC")
      then err (
          new_invalid_argument_error "Invalid order_by direction"
            (sprintf ("Direction '" ∷ token ∷ "' is not valid. Use 'asc' or 'desc'" ∷ [])))
      else ok (to_upper token)

  -- At most the direction may follow the field.
  check_extra : String → List String → Result ServiceError (Unit {0})
  check_extra part (direction ∷ extra ∷ tokens) = err (
      new_invalid_argument_error "Invalid order_by format" (
        sprintf (
          "Too many tokens in order_by clause '" ∷ part ∷ "'. Expected format: 'field [asc|desc]'"
          ∷ [])))
  check_extra part _ = ok tt

  check_supported : String → Result ServiceError (Unit {0})
  check_supported field =
      if not (is_supported field)
      then err (
          new_invalid_argument_error "Invalid order_by field" (
            sprintf (
              "Field '" ∷ field
              ∷ "' is not supported for ordering. Supported fields: priority, display_name, create_time"
              ∷ [])))
      else ok tt

  -- One round of the loop, at the tokens of the part: a part with none is skipped.
  parse_clause : String → List String → List String → Result ServiceError (List String)
  unfolding direction_of check_extra check_supported
  parse_clause part [] gorm_parts = ok gorm_parts
  parse_clause part (field ∷ tokens) gorm_parts = do
    supported ← check_supported field
    direction ← direction_of tokens
    no_extra ← check_extra part tokens
    ok (gorm_parts ++ (sprintf (field ∷ " " ∷ direction ∷ []) ∷ []))

  parse_parts : List String → List String → Result ServiceError (List String)
  unfolding parse_clause
  parse_parts [] gorm_parts = ok gorm_parts
  parse_parts (part ∷ parts) gorm_parts =
      parse_clause (trim_space part) (fields (trim_space part)) gorm_parts >>= λ gorm_parts'.
      parse_parts parts gorm_parts'

  -- The ordering of the clauses, the default if there is none.
  order_text : List String → String
  order_text [] = default_order_by
  order_text (p ∷ gorm_parts) = join ", " (p ∷ gorm_parts)

  unfoldable pub parse_order_by : String → Result ServiceError String
  unfolding parse_parts order_text
  parse_order_by order_by =
      if order_by == ""
      then ok default_order_by
      else (parse_parts (split b',' order_by) [] >>= λ gorm_parts. ok (order_text gorm_parts))
