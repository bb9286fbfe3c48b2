-- ===== src/Service/Constraints/Providers.antt =====
-- `MergeSPConstraints` and `ValidateServiceProvider`.
pub mod Laws
use policy_manager.Base.{
  Bool, true, false, not, String, Option, none, some, List, [], ◌∷◌, ◌++◌, ◌==◌, Result, ok, err,
  ◌>>=◌, ◌>>◌, contains, if◌then◌else◌,
}
use policy_manager.Base.Text.{sprintf, join}
use policy_manager.Json.Go.{Go}
use policy_manager.Opa.Decision.{ServiceProviderConstraints}
use policy_manager.Service.Constraints.Values.{intersect_string_slices}
use policy_manager.Service.Constraints.Context.{AccumulatedSpConstraints, ConstraintContext}

-- The `%v` of a []string.
slice_text : List String → String
slice_text xs = sprintf ("[" ∷ join " " xs ∷ "]" ∷ [])

module _ (policy_id set_by_policy : String) where
  -- An empty intersection is an error.
  intersected : List String → List String → List String → Result String (List String)
  unfolding slice_text
  intersected allow_list existing [] = err (
      sprintf (
        "service provider allow list intersection is empty: policy '"
        ∷ policy_id
        ∷ "' allows "
        ∷ slice_text allow_list
        ∷ " but existing constraints from policy '"
        ∷ set_by_policy
        ∷ "' allow "
        ∷ slice_text existing
        ∷ []))
  intersected allow_list existing (x ∷ xs) = ok (x ∷ xs)

  -- The new list and the existing one: both, or the one that is there.
  merge_allow_lists : List String → List String → Result String (List String)
  unfolding intersected
  merge_allow_lists [] existing = ok existing
  merge_allow_lists (a ∷ allow_list) [] = ok (a ∷ allow_list)
  merge_allow_lists (a ∷ allow_list) (b ∷ existing) =
      intersected (a ∷ allow_list) (b ∷ existing)
        (intersect_string_slices (b ∷ existing) (a ∷ allow_list))

-- What the context accumulates; the first policy that sets any constraint is remembered.
merge_accumulated :
    List String
    → List String
    → String
    → Option AccumulatedSpConstraints
    → Result String AccumulatedSpConstraints
unfolding merge_allow_lists
merge_accumulated allow_list patterns policy_id none =
    ok (record { allow_list = allow_list; patterns = patterns; set_by_policy = policy_id })
merge_accumulated allow_list patterns policy_id (some sp) =
    merge_allow_lists policy_id sp.set_by_policy allow_list sp.allow_list >>= λ merged.
    ok (record sp { allow_list = merged; patterns = sp.patterns ++ patterns })

-- `len(allowList) == 0 && len(patterns) == 0`
are_empty : List String → List String → Bool
are_empty [] [] = true
are_empty _ _ = false

check_allow_list : List String → String → String → Result String (Unit {0})
unfolding slice_text
check_allow_list [] set_by_policy provider = ok tt
check_allow_list (a ∷ allow_list) set_by_policy provider =
    if contains (a ∷ allow_list) provider
    then ok tt
    else err (
        sprintf (
          "provider '"
          ∷ provider
          ∷ "' is not in the allowed list "
          ∷ slice_text (a ∷ allow_list)
          ∷ " (constrained by policy '"
          ∷ set_by_policy
          ∷ "')"
          ∷ []))

check_match : String → String → Result String Bool → Result String (Unit {0})
check_match pattern provider (err e) =
    err (sprintf ("invalid service provider pattern '" ∷ pattern ∷ "': " ∷ e ∷ []))
check_match pattern provider (ok true) = ok tt
check_match pattern provider (ok false) =
    err (
      sprintf
        ("provider '" ∷ provider ∷ "' does not match required pattern '" ∷ pattern ∷ "'" ∷ []))

module _ {F : Type 0} where
  unfoldable pub merge_sp_constraints :
      Option ServiceProviderConstraints
      → String
      → ConstraintContext F
      → Result String (ConstraintContext F)
  unfolding merge_accumulated are_empty
  merge_sp_constraints none policy_id c = ok c
  merge_sp_constraints (some sp) policy_id c =
      if are_empty sp.allow_list sp.patterns
      then ok c
      else merge_accumulated sp.allow_list sp.patterns policy_id c.service_provider_constraints
        >>= λ acc. ok (record c { service_provider_constraints = some acc })

  check_patterns : Go F → List String → String → Result String (Unit {0})
  unfolding check_match
  check_patterns go [] provider = ok tt
  check_patterns go (pattern ∷ patterns) provider =
      check_match pattern provider (go.match_string pattern provider)
      >> check_patterns go patterns provider

  validate_accumulated : Go F → Option AccumulatedSpConstraints → String → Result String (Unit {0})
  unfolding check_allow_list check_patterns
  validate_accumulated go none provider = ok tt
  validate_accumulated go (some sp) provider =
      check_allow_list sp.allow_list sp.set_by_policy provider
      >> check_patterns go sp.patterns provider

  unfoldable pub validate_service_provider :
      Go F → String → ConstraintContext F → Result String (Unit {0})
  unfolding validate_accumulated
  validate_service_provider go provider c =
      if provider == ""
      then ok tt
      else validate_accumulated go c.service_provider_constraints provider
