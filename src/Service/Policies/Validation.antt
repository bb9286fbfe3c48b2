-- ===== src/Service/Policies/Validation.antt =====
-- internal/service/policy.go: `validatePostInput`, `validatePriority`, `validatePatchInput`,
-- `validatePatchImmutableFields` and `mergePolicyOntoPolicy`.
pub mod Laws
use policy_manager.Base.{
  ℕ, Bool, true, false, not, ◌||◌, String, Option, none, some, ◌==◌, eqb, Result, ok, err, ◌>>=◌,
  ◌>>◌, if◌then◌else◌,
}
use policy_manager.Base.Int.{ℤ, pos, ltb_ℤ}
use policy_manager.Base.Text.{trim_space}
use policy_manager.Api.Types.{Policy}
use policy_manager.Service.Errors.{ServiceError, new_invalid_argument_error}

abbrev pub min_priority : ℤ
min_priority = pos 1

abbrev pub max_priority : ℤ
max_priority = pos 1000

unfoldable pub validate_priority : Option ℤ → Result ServiceError (Unit {0})
validate_priority none = ok tt
validate_priority (some priority) =
    if ltb_ℤ priority min_priority || ltb_ℤ max_priority priority
    then err (
        new_invalid_argument_error "priority must be between 1 and 1000"
          "The priority field must be a value between 1 and 1000")
    else ok tt

-- `p == nil || strings.TrimSpace(*p) == ""`
is_blank : Option String → Bool
is_blank none = true
is_blank (some s) = trim_space s == ""

is_missing : Option String → Bool
is_missing none = true
is_missing (some s) = false

unfoldable pub validate_post_input : Policy → Result ServiceError (Unit {0})
unfolding is_blank is_missing
validate_post_input policy =
    if is_blank policy.display_name
    then err (
        new_invalid_argument_error "display_name is required"
          "The display_name field must be present and non-empty")
    else if is_missing policy.policy_type
    then err (
        new_invalid_argument_error "policy_type is required"
          "The policy_type field must be present (GLOBAL or USER)")
    else if is_blank policy.rego_code
    then err (
        new_invalid_argument_error "rego_code is required"
          "The rego_code field must be present and non-empty")
    else validate_priority policy.priority

-- `p != nil && strings.TrimSpace(*p) == ""`
is_emptied : Option String → Bool
is_emptied none = false
is_emptied (some s) = trim_space s == ""

unfoldable pub validate_patch_input : Option Policy → Result ServiceError (Unit {0})
unfolding is_emptied
validate_patch_input none = ok tt
validate_patch_input (some patch) =
    if is_emptied patch.rego_code
    then err (
        new_invalid_argument_error "rego_code cannot be empty"
          "When rego_code is provided in the patch it must be non-empty")
    else validate_priority patch.priority

-- A field of the patch that is there, against the existing field.
unfoldable pub changes : {A : Type 0} → (A → A → Bool) → Option A → Option A → Bool
changes eq none existing = false
changes eq (some p) none = true
changes eq (some p) (some e) = not (eq p e)

unfoldable pub validate_patch_immutable_fields :
    Option Policy → Policy → Result ServiceError (Unit {0})
validate_patch_immutable_fields none existing = ok tt
validate_patch_immutable_fields (some patch) existing =
    if changes ◌==◌ patch.path existing.path
    then err (
        new_invalid_argument_error "path cannot be updated"
          "The path field is read-only and cannot be changed")
    else if changes ◌==◌ patch.id existing.id
    then err (
        new_invalid_argument_error "id cannot be updated"
          "The id field is read-only and cannot be changed")
    else if changes ◌==◌ patch.policy_type existing.policy_type
    then err (
        new_invalid_argument_error "policy_type is immutable"
          "The policy_type field cannot be changed after creation")
    else if changes eqb patch.create_time existing.create_time
    then err (
        new_invalid_argument_error "create_time cannot be updated"
          "The create_time field is read-only and cannot be changed")
    else if changes eqb patch.update_time existing.update_time
    then err (
        new_invalid_argument_error "update_time cannot be updated"
          "The update_time field is read-only and cannot be changed")
    else ok tt

-- `if patch.X != nil { merged.X = patch.X }`
abbrev pub patched {ℓ} : {A : Type ℓ} → Option A → Option A → Option A
patched none existing = existing
patched (some a) existing = some a

unfoldable pub merge_policy_onto_policy : Option Policy → Policy → Policy
merge_policy_onto_policy none existing = existing
merge_policy_onto_policy (some patch) existing = record existing {
  display_name = patched patch.display_name existing.display_name;
  description = patched patch.description existing.description;
  enabled = patched patch.enabled existing.enabled;
  label_selector = patched patch.label_selector existing.label_selector;
  priority = patched patch.priority existing.priority;
  rego_code = patched patch.rego_code existing.rego_code;
}
