-- ===== src/Opa/Decision.antt =====
-- internal/opa/evaluation.go: the decision that a policy's result states.
use policy_manager.Base.{Bool, false, String, Option, none, some, List, [], ◌∷◌}
use policy_manager.Json.{
  Value, Items, nil, cons, Object, get, as_bool, as_string, as_items, as_object,
}

-- `result` is nil where the policy is not defined.
pub record EvaluationResult (F : Type 0) : Type 0 where
  pub result : Object F
  pub defined : Bool

pub record ServiceProviderConstraints : Type 0 where
  pub allow_list : List String
  pub patterns : List String

pub record PolicyDecision (F : Type 0) : Type 0 where
  pub rejected : Bool
  pub rejection_reason : String
  pub patch : Option (Object F)
  pub constraints : Option (Object F)
  pub service_provider_constraints : Option ServiceProviderConstraints
  pub selected_provider : String

abbrev or_false : Option Bool → Bool
or_false none = false
or_false (some b) = b

abbrev or_empty : Option String → String
or_empty none = ""
or_empty (some s) = s

module _ {F : Type 0} where
  -- `x, ok := result[k].(T)`: the value where it is there with the type.
  abbrev at_key : {T : Type 0} → (Value F → Option T) → Option (Value F) → Option T
  at_key as_type none = none
  at_key as_type (some v) = as_type v

  -- The texts of an array; other values are passed over.
  strings : Items F → List String
  strings nil = []
  strings (cons item rest) = elim (as_string item) [
    | none ↦ strings rest
    | some s ↦ s ∷ strings rest
  ]

  strings_at : String → Object F → List String
  unfolding strings
  strings_at k spc = elim (at_key as_items (get k spc)) [ none ↦ [] | some xs ↦ strings xs ]

  parse_sp : Option (Object F) → Option ServiceProviderConstraints
  unfolding strings_at
  parse_sp none = none
  parse_sp (some spc) =
      some
        (record { allow_list = strings_at "allow_list" spc; patterns = strings_at "patterns" spc })

  unfoldable pub parse_policy_decision : Object F → PolicyDecision F
  unfolding parse_sp
  parse_policy_decision result = record {
    rejected = or_false (at_key as_bool (get "rejected" result));
    rejection_reason = or_empty (at_key as_string (get "rejection_reason" result));
    patch = at_key as_object (get "patch" result);
    constraints = at_key as_object (get "constraints" result);
    service_provider_constraints =
        parse_sp (at_key as_object (get "service_provider_constraints" result));
    selected_provider = or_empty (at_key as_string (get "selected_provider" result));
  }
