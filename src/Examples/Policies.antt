-- ===== src/Examples/Policies.antt =====
-- Policies that a client sends, at concrete values.
use Prim.Native.String.{count}
use policy_manager.Base.{◌≡◌, refl, ◌≤◌, ◌↔◌, true, false, none, some, [], ◌==◌, ok, arith}
use policy_manager.Base.Int.{pos}
use policy_manager.Base.Text.{trim_space}
use policy_manager.Api.Types
use policy_manager.Store.Model
use policy_manager.Service.Converter.{api_to_db_model}
use policy_manager.Service.Policies.Validation.{
  validate_priority, validate_post_input, validate_patch_input,
}
use policy_manager.Service.Policies.Validation.Laws.{
  IsWellFormed, updated_row, validate_post_input-IsWellFormed, validate_patch_input-IsWellFormed,
}
use policy_manager.Service.Policies.Identifiers.{match_id_pattern}
use policy_manager.Service.Policies.Identifiers.Laws.{
  StartsWell, HasIdChars, EndsWell, match_id_pattern_iff,
}

abbrev pub row : Model.Policy
row = record {
  id = "deny-all";
  display_name = "Deny all";
  description = "";
  policy_type = "GLOBAL";
  label_selector = [];
  priority = pos 10;
  rego_code = "package p";
  enabled = true;
  create_time = 3;
  update_time = 4;
}

-- Nothing but a new priority.
abbrev pub raise_priority : Types.Policy
raise_priority = record {
  create_time = none;
  description = none;
  display_name = none;
  enabled = none;
  id = none;
  label_selector = none;
  path = none;
  policy_type = none;
  priority = some (pos 7);
  rego_code = none;
  update_time = none;
}

abbrev pub new_policy : Types.Policy
new_policy = record raise_priority {
  display_name = some "Deny all";
  policy_type = some "GLOBAL";
  rego_code = some "package p";
}

new_policy_valid : validate_post_input new_policy ≡ ok tt
unfolding validate_post_input trim_space validate_priority
new_policy_valid = refl

patch_valid : validate_patch_input (some raise_priority) ≡ ok tt
unfolding validate_patch_input validate_priority
patch_valid = refl

row-IsWellFormed : IsWellFormed row
unfolding trim_space
row-IsWellFormed = record { at_least = omega arith; at_most = omega arith; has_code = refl }

validate_post_input-IsWellFormed_example :
    IsWellFormed (api_to_db_model new_policy "deny-all")
    × ((trim_space (api_to_db_model new_policy "deny-all").display_name == "") ≡ false)
validate_post_input-IsWellFormed_example =
    validate_post_input-IsWellFormed new_policy "deny-all" new_policy_valid

validate_patch_input-IsWellFormed_example : IsWellFormed (updated_row (some raise_priority) row)
validate_patch_input-IsWellFormed_example =
    validate_patch_input-IsWellFormed raise_priority row patch_valid row-IsWellFormed

match_id_pattern_iff_example : (match_id_pattern "deny-all" ≡ true) ↔ (
    StartsWell "deny-all" × HasIdChars "deny-all" × EndsWell "deny-all" × (count "deny-all" ≤ 63))
match_id_pattern_iff_example = match_id_pattern_iff "deny-all"
