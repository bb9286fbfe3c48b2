-- ===== src/Service/Evaluation/Patches.antt =====
-- internal/service/evaluation.go: what the policies of an evaluation do to the specification.
use policy_manager.Base.{◌≡◌, ◌⊎◌, true, false, String, Option, none, some, List, [], ◌∷◌, ok}
use policy_manager.Base.Dict.{Dict}
use policy_manager.Json.{Object}
use policy_manager.Json.Go.{Go}
use policy_manager.Opa.Decision.{PolicyDecision, EvaluationResult, parse_policy_decision}
use policy_manager.Opa.Engine.{Rego, EmbeddedEngine}
use policy_manager.Opa.Engine
use policy_manager.Store.Model.{Policy}
use policy_manager.Service.Labels.{matches_label_selector}
use policy_manager.Service.Patch.{merge_patch}
use policy_manager.Service.Constraints.Context.{ConstraintContext}
use policy_manager.Service.Constraints.Providers.{merge_sp_constraints}
use policy_manager.Service.Constraints.Validate.{JsonSchema}
use policy_manager.Service.Constraints.Validate.Sound.{Meets, EachField}
use policy_manager.Service.Evaluation.{
  Progress, merge_decision_constraints, evaluate_policy, opa_input,
}

module _ {F C S K Q : Type 0} (go : Go F) (js : JsonSchema F C S) (rego : Rego F K Q)
    (engine : EmbeddedEngine Q) where
  -- A specification that is kept where there is no patch, or the merge of a patch that meets the
  -- constraints of `ctx`.
  abbrev pub IsMerge : ConstraintContext F → Option (Object F) → Object F → Object F → Type 0
  IsMerge ctx none spec spec' = spec' ≡ spec
  IsMerge ctx (some patch) spec spec' =
      EachField js go ctx (Meets js go ctx) patch "" × (merge_patch go spec patch ≡ ok spec')

  -- The constraints that were there, then those that the policy's decision sets for fields, then those
  -- that it sets for providers.
  abbrev pub IsGathered :
      String → PolicyDecision F → ConstraintContext F → ConstraintContext F → Type 0
  IsGathered id d before after =
      (fields : ConstraintContext F) × (merge_decision_constraints go js rego engine id
          d.constraints before
        ≡ ok fields)
      × (merge_sp_constraints d.service_provider_constraints id fields ≡ ok after)

  -- What the engine decides of a policy, given the specification and the constraints so far.
  abbrev pub Decides : Policy → Progress F → EvaluationResult F → Type 0
  Decides policy st r =
      Engine.evaluate_policy rego engine policy.id (opa_input go js rego engine st) ≡ ok r

  -- The policies of a page one by one. One whose selector does not match, or that the engine has no
  -- decision for, changes nothing; every other one has its decision followed.
  pub data Run (labels : Dict String) : List Policy → Progress F → Progress F → Type 0 where
    done : (st : Progress F) → Run labels [] st st
    unmatched :
        (policy : Policy) (policies : List Policy) (st st' : Progress F)
        → matches_label_selector policy.label_selector labels ≡ false
        → Run labels policies st st'
        → Run labels (policy ∷ policies) st st'
    undecided :
        (policy : Policy) (policies : List Policy) (st st' : Progress F) (r : EvaluationResult F)
        → matches_label_selector policy.label_selector labels ≡ true
        → Decides policy st r
        → r.defined ≡ false
        → Run labels policies st st'
        → Run labels (policy ∷ policies) st st'
    decided :
        (policy : Policy) (policies : List Policy) (st mid st' : Progress F)
        (r : EvaluationResult F)
        → matches_label_selector policy.label_selector labels ≡ true
        → Decides policy st r
        → r.defined ≡ true
        → (parse_policy_decision r.result).rejected ≡ false
        → IsGathered policy.id (parse_policy_decision r.result) st.constraint_ctx mid.constraint_ctx
        → IsMerge mid.constraint_ctx
            (parse_policy_decision r.result).patch
            st.current_spec
            mid.current_spec
        → Run labels policies mid st'
        → Run labels (policy ∷ policies) st st'

  -- A decision is followed.
  abbrev IsStep : String → PolicyDecision F → Progress F → Progress F → Type 0
  IsStep id d st st' =
      (d.rejected ≡ false)
      × IsGathered id d st.constraint_ctx st'.constraint_ctx
      × IsMerge st'.constraint_ctx d.patch st.current_spec st'.current_spec

  -- What a policy whose selector matches does.
  abbrev IsTurn : Policy → Progress F → Progress F → Type 0
  IsTurn policy st st' =
      (r : EvaluationResult F) × Decides policy st r
      × (((r.defined ≡ false) × (st ≡ st'))
          ⊎ ((r.defined ≡ true) × IsStep policy.id (parse_policy_decision r.result) st st'))
