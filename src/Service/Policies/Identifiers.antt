-- ===== src/Service/Policies/Identifiers.antt =====
-- internal/service/policy.go: `idPattern` and `getPolicyID`.
pub mod Laws
use Prim.Native.Char.{code}
use Prim.Native.String
use policy_manager.Base.{
  ℕ, zero, suc, Bool, true, false, not, ◌&&◌, ◌||◌, String, Option, none, some, ◌==◌, leb, eqb,
  Result, ok, err, List, [], ◌∷◌, if◌then◌else◌,
}
use policy_manager.Base.Text.{sprintf}
use policy_manager.Service.Errors.{ServiceError, new_invalid_argument_error}

-- The classes [a-z], [a-z0-9] and [a-z0-9-].
abbrev pub is_lower : ℕ → Bool
is_lower c = leb b'a' c && leb c b'z'

abbrev pub is_end : ℕ → Bool
is_end c = is_lower c || (leb b'0' c && leb c b'9')

abbrev pub is_middle : ℕ → Bool
is_middle c = is_end c || eqb c b'-'

-- `[a-z0-9-]{0,n}[a-z0-9]` at the end of the text.
match_group : ℕ → String → Bool
match_group n String.[] = false
match_group n (String.◌∷◌ c String.[]) = is_end (code c)
match_group zero (String.◌∷◌ c (String.◌∷◌ d s)) = false
match_group (suc n) (String.◌∷◌ c (String.◌∷◌ d s)) =
    is_middle (code c) && match_group n (String.◌∷◌ d s)

-- `^[a-z]([a-z0-9-]{0,61}[a-z0-9])?$`
unfoldable pub match_id_pattern : String → Bool
unfolding match_group
match_id_pattern String.[] = false
match_id_pattern (String.◌∷◌ c String.[]) = is_lower (code c)
match_id_pattern (String.◌∷◌ c (String.◌∷◌ d s)) =
    is_lower (code c) && match_group 61 (String.◌∷◌ d s)

checked_id : String → Result ServiceError String
checked_id policy_id =
    if not (match_id_pattern policy_id)
    then err (
        new_invalid_argument_error "Invalid policy ID format" (
          sprintf (
            "Policy ID '" ∷ policy_id
            ∷ "' does not match required format: 1-63 characters, start with lowercase letter, contain only lowercase letters, numbers, and hyphens, end with letter or number"
            ∷ [])))
    else ok policy_id

-- `uuid` is the text of the UUID that the server would generate.
unfoldable pub get_policy_id : String → Option String → Result ServiceError String
unfolding checked_id
get_policy_id uuid none = ok uuid
get_policy_id uuid (some client_id) = if client_id == "" then ok uuid else checked_id client_id
