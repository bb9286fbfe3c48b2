-- ===== src/Service/Converter.antt =====
-- internal/service/converter.go
pub mod Laws
use policy_manager.Base.{Bool, true, String, Option, none, some, List, [], ◌∷◌, ◌==◌, if◌then◌else◌}
use policy_manager.Base.Int.{ℤ, pos}
use policy_manager.Base.Dict.{Dict}
use policy_manager.Base.Text.{sprintf}
use policy_manager.Api.Types
use policy_manager.Store.Model

abbrev pub default_priority : ℤ
default_priority = pos 500

-- `if p != nil { x = *p } else { x = d }`; a zero value is the `d` of a field with no `else`.
abbrev pub or_default {ℓ} : {A : Type ℓ} → A → Option A → A
or_default d none = d
or_default d (some a) = a

-- The zero time.Time.
unfoldable pub api_to_db_model : Types.Policy → String → Model.Policy
api_to_db_model api id = record {
  id = id;
  display_name = or_default "" api.display_name;
  description = or_default "" api.description;
  policy_type = or_default "" api.policy_type;
  label_selector = or_default [] api.label_selector;
  priority = or_default default_priority api.priority;
  rego_code = or_default "" api.rego_code;
  enabled = or_default true api.enabled;
  create_time = 0;
  update_time = 0;
}

nonempty_text : String → Option String
nonempty_text s = if s == "" then none else some s

nonempty_labels : Dict String → Option (Dict String)
nonempty_labels [] = none
nonempty_labels (l ∷ ls) = some (l ∷ ls)

unfoldable pub db_to_api_model : Model.Policy → Types.Policy
unfolding nonempty_text nonempty_labels
db_to_api_model db = record {
  create_time = some db.create_time;
  description = nonempty_text db.description;
  display_name = some db.display_name;
  enabled = some db.enabled;
  id = some db.id;
  label_selector = nonempty_labels db.label_selector;
  path = some (sprintf ("policies/" ∷ db.id ∷ []));
  policy_type = some db.policy_type;
  priority = some db.priority;
  rego_code = some db.rego_code;
  update_time = some db.update_time;
}
