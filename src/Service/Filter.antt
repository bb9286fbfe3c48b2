-- ===== src/Service/Filter.antt =====
-- internal/service/filter.go
pub mod Laws
use policy_manager.Base.{
  ℕ, zero, suc, ◌+◌, Bool, true, false, not, ◌||◌, ◌&&◌, String, Option, none, some, List, [], ◌∷◌,
  ◌==◌, eqb, is_some, leb, Result, ok, err, if◌then◌else◌,
}
use policy_manager.Base.Ascii.{codes}
use policy_manager.Base.Text.{sprintf}
use policy_manager.Store.Model.{PolicyFilter}
use policy_manager.Service.Errors.{ServiceError, new_invalid_argument_error}

-- The characters after a prefix.
strip : List ℕ → List ℕ → Option (List ℕ)
strip [] s = some s
strip (c ∷ p) [] = none
strip (c ∷ p) (d ∷ s) = let rest = strip p s in if eqb c d then rest else none

abbrev pub and_then {ℓ κ} : {A : Type ℓ} {B : Type κ} → Option A → (A → Option B) → Option B
and_then none f = none
and_then (some a) f = f a

-- `\s*`: [\t\n\f\r ]
skip_spaces : List ℕ → List ℕ
skip_spaces [] = []
skip_spaces (c ∷ s) =
    let rest = skip_spaces s in
    if eqb c 9 || eqb c 10 || eqb c 12 || eqb c 13 || eqb c 32 then rest else c ∷ s

-- `name\s*=\s*` at the beginning: the characters after it.
assignment : String → List ℕ → Option (List ℕ)
unfolding strip skip_spaces
assignment name s =
    and_then (strip (codes name) s)
      λ rest. and_then (strip (codes "=") (skip_spaces rest)) λ value. some (skip_spaces value)

-- One of two words, at the beginning.
either_word : String → String → List ℕ → Option String
unfolding strip
either_word one other s =
    if is_some (strip (codes one) s)
    then some one
    else if is_some (strip (codes other) s)
    then some other
    else none

abbrev pub or_else {ℓ} : {A : Type ℓ} → Option A → Option A → Option A
or_else none other = other
or_else (some a) other = some a

-- The group of the leftmost match.
leftmost : (List ℕ → Option String) → List ℕ → Option String
leftmost match_at [] = match_at []
leftmost match_at (c ∷ s) = or_else (match_at (c ∷ s)) (leftmost match_at s)

-- `'(GLOBAL|USER)'`
quoted_type : List ℕ → Option String
unfolding strip either_word
quoted_type s = and_then (strip (codes "'") s) λ rest.
    and_then (either_word "GLOBAL'" "USER'" rest)
      λ m. some (if m == "GLOBAL'" then "GLOBAL" else "USER")

-- policyTypePattern.FindStringSubmatch
match_policy_type : String → Option String
unfolding assignment quoted_type leftmost
match_policy_type s = leftmost (λ t. and_then (assignment "policy_type" t) quoted_type) (codes s)

-- enabledPattern.FindStringSubmatch
match_enabled : String → Option String
unfolding assignment either_word leftmost
match_enabled s =
    leftmost (λ t. and_then (assignment "enabled" t) (either_word "true" "false")) (codes s)

-- How often a text occurs, without overlap; the first argument counts the characters of an occurrence
-- that are still to be passed over.
occurrences : ℕ → List ℕ → List ℕ → ℕ → ℕ
unfolding strip
occurrences width word [] skip = 0
occurrences width word (c ∷ s) (suc skip) = occurrences width word s skip
occurrences width word (c ∷ s) zero =
    let found = is_some (strip word (c ∷ s)) in
    (if found then 1 else 0) + occurrences width word s (if found then width else 0)

-- strings.Contains(s, " AND ") and len(strings.Split(s, " AND "))
pub count_and : String → ℕ
unfolding occurrences
count_and s = occurrences 4 (codes " AND ") (codes s) 0

-- `enabledStr == "true"`
is_true : Option String → Option Bool
is_true none = none
is_true (some enabled) = some (enabled == "true")

-- The checks of the filter that was read: it has a condition, and there is at most one AND.
check_filter : String → PolicyFilter → Result ServiceError (Option PolicyFilter)
unfolding count_and
check_filter filter_expr filter =
    if not (is_some filter.policy_type) && not (is_some filter.enabled)
    then err (
        new_invalid_argument_error "Invalid filter expression" (
          sprintf (
            "Filter expression '" ∷ filter_expr
            ∷ "' does not contain valid conditions. Supported fields: policy_type, enabled" ∷ [])))
    else if leb (count_and filter_expr) 1
    then ok (some filter)
    else err (
        new_invalid_argument_error "Invalid filter expression"
          "Multiple AND operators are not supported")

unfoldable pub parse_filter : String → Result ServiceError (Option PolicyFilter)
unfolding match_policy_type match_enabled is_true check_filter
parse_filter filter_expr =
    if filter_expr == ""
    then ok none
    else check_filter filter_expr (record {
      policy_type = match_policy_type filter_expr;
      enabled = is_true (match_enabled filter_expr);
    })
