-- ===== src/Examples/Evaluation.antt =====
-- The engine and an evaluation at concrete policies.
use policy_manager.Base.{
  ℕ, ◌≡◌, refl, ◌⊎◌, true, String, none, some, List, [], ◌∷◌, ◌↔◌, ok, err, contains, map, is_some,
}
use policy_manager.Base.Int.{pos}
use policy_manager.Base.Dict.{Dict, lookup}
use policy_manager.Json.{str, bool, obj, empty, field, get}
use policy_manager.Opa.Decision.{parse_policy_decision}
use policy_manager.Opa.Engine.{Rego, PolicyModule, EngineError, EmbeddedEngine, compile, new_engine}
use policy_manager.Opa.Engine
use policy_manager.Opa.Engine.Laws.{compile-atomic}
use policy_manager.Store.Model.{Policy}
use policy_manager.Service.Labels.{matches_label_selector}
use policy_manager.Service.Constraints.Providers.{merge_sp_constraints, validate_service_provider}
use policy_manager.Service.Evaluation.{Progress, evaluate_policy, evaluate_page}
use policy_manager.Service.Evaluation.Laws.{
  Follows, IsAllowed, evaluate_policy-Follows, evaluate_page-narrows,
}
use policy_manager.Service.Errors.{rejected, new_policy_rejected_error}
use policy_manager.Service.Evaluation.Rejections.{Rejects, evaluate_policy_rejected}
use policy_manager.Examples.Setup.{go, js, rego}

abbrev modules : List PolicyModule
modules = record { id = "p1"; rego_code = "package a" } ∷ []

abbrev idle : EmbeddedEngine String
idle = record { queries = [] }

compile-atomic_example :
    (((compile rego modules idle).0 ≡ ok tt)
      × ((id : String)
          → is_some (lookup id (compile rego modules idle).1.queries)
            ≡ contains (map (λ p. p.id) modules) id))
    ⊎ ((x : EngineError) × ((compile rego modules idle).0 ≡ err x)
        × ((compile rego modules idle).1 ≡ idle))
compile-atomic_example = compile-atomic rego modules idle

abbrev engine : EmbeddedEngine String
engine = record { queries = ("p1", "aws") ∷ [] }

abbrev policy : Policy
policy = record {
  id = "p1";
  display_name = "Provider";
  description = "";
  policy_type = "GLOBAL";
  label_selector = [];
  priority = pos 1;
  rego_code = "package a";
  enabled = true;
  create_time = 0;
  update_time = 0;
}

abbrev before : Progress ℕ
before = record {
  current_spec = empty;
  selected_provider = "";
  constraint_ctx = record {
    constrained_fields_by_field_path = [];
    policy_id_by_field_path = [];
    service_provider_constraints = none;
  };
}

abbrev after : Progress ℕ
after = record {
  current_spec = empty;
  selected_provider = "aws";
  constraint_ctx = record {
    constrained_fields_by_field_path = [];
    policy_id_by_field_path = [];
    service_provider_constraints =
        some (record { allow_list = "aws" ∷ []; patterns = []; set_by_policy = "p1" });
  };
}

evaluated : evaluate_policy go js rego engine policy before ≡ ok after
unfolding evaluate_policy Engine.evaluate_policy parse_policy_decision get lookup
    merge_sp_constraints validate_service_provider
evaluated = refl

page_evaluated : evaluate_page go js rego engine [] (policy ∷ []) before ≡ ok after
unfolding evaluate_page matches_label_selector evaluate_policy Engine.evaluate_policy
    parse_policy_decision get lookup merge_sp_constraints validate_service_provider
page_evaluated = refl

allowed : IsAllowed go "aws" after
unfolding validate_service_provider
allowed = refl

evaluate_policy-Follows_example : Follows go before after
evaluate_policy-Follows_example =
    evaluate_policy-Follows go js rego engine policy before after evaluated

evaluate_page-narrows_example : IsAllowed go "aws" before
evaluate_page-narrows_example =
    evaluate_page-narrows go js rego engine [] (policy ∷ []) before after "aws" refl page_evaluated
      allowed

-- OPA rejects each request.
abbrev rejecting : Rego ℕ (Dict String) String
rejecting = record rego {
  eval = λ query input.
      ok (
        (obj (field "rejected" (bool true) (field "rejection_reason" (str "no") empty)) ∷ []) ∷ []);
}

refused :
    evaluate_policy go js rejecting engine policy before ≡ err (new_policy_rejected_error "p1" "no")
unfolding evaluate_policy Engine.evaluate_policy parse_policy_decision get lookup
refused = refl

evaluate_policy_rejected_example :
    ((new_policy_rejected_error "p1" "no").type ≡ rejected)
    ↔ Rejects go js rejecting engine policy before
evaluate_policy_rejected_example =
    evaluate_policy_rejected go js rejecting engine policy before
      (new_policy_rejected_error "p1" "no") refused
