-- ===== src/Examples/Validation.antt =====
-- A patch with a constrained field, two levels deep.
use policy_manager.Base.{ℕ, ◌≡◌, refl, none, [], ◌∷◌}
use policy_manager.Base.Dict.{lookup, insert}
use policy_manager.Base.Text.{sprintf}
use policy_manager.Json.{Object, str, obj, empty, field}
use policy_manager.Service.Constraints.Context.{ConstraintContext}
use policy_manager.Service.Constraints.Validate.{validate_patch, replace_dots}
use policy_manager.Service.Constraints.Validate.Sound.{Meets, EachField, validate_patch-EachField}
use policy_manager.Examples.Setup.{go, js}

abbrev schema : Object ℕ
schema = field "type" (str "string") empty

abbrev constrained : ConstraintContext ℕ
constrained = record {
  constrained_fields_by_field_path = ("vm.region", schema) ∷ ("size", schema) ∷ [];
  policy_id_by_field_path = ("vm.region", "deny-all") ∷ ("size", "deny-all") ∷ [];
  service_provider_constraints = none;
}

abbrev patch : Object ℕ
patch = field "vm" (obj (field "region" (str "eu") empty)) (field "size" (str "small") empty)

patch_valid : validate_patch js go constrained patch ≡ []
unfolding validate_patch lookup insert sprintf replace_dots
patch_valid = refl

validate_patch-EachField_example : EachField js go constrained (Meets js go constrained) patch ""
validate_patch-EachField_example = validate_patch-EachField js go constrained patch patch_valid
