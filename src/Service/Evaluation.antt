-- ===== src/Service/Evaluation.antt =====
-- internal/service/evaluation.go: the evaluation of a request against the enabled policies.
pub mod Request
pub mod Laws
pub mod Failures
pub mod Rejections
pub mod Patches
use policy_manager.Base.{
  ℕ, zero, suc, Bool, true, false, String, Option, none, some, List, [], ◌∷◌, ◌==◌, Result, ok, err,
  ◌>>=◌, map_err, if◌then◌else◌,
}
use policy_manager.Base.Int.{pos}
use policy_manager.Base.Dict.{Dict}
use policy_manager.Base.Text.{sprintf}
use policy_manager.Json.{Value, str, obj, Object, empty, field, put}
use policy_manager.Json.Go.{Go}
use policy_manager.Opa.Decision.{PolicyDecision, EvaluationResult, parse_policy_decision}
use policy_manager.Opa.Engine.{Rego, EmbeddedEngine, engine_error_text}
use policy_manager.Opa.Engine
use policy_manager.Store.Model.{Policy, PolicyListOptions, PolicyListResult}
use policy_manager.Service.Labels.{matches_label_selector}
use policy_manager.Service.Patch.{merge_patch}
use policy_manager.Service.Errors.{
  ServiceError, ConstraintViolation, new_internal_error, new_policy_rejected_error,
  new_constraint_conflict_error, new_constraint_violation_error,
  new_service_provider_constraint_error,
}
use policy_manager.Service.Constraints.Keywords.{ConstraintConflictError}
use policy_manager.Service.Constraints.Context.{
  ConstraintContext, new_constraint_context, merge_constraints, get_constraints_map,
  get_sp_constraints_map,
}
use policy_manager.Service.Constraints.Providers.{merge_sp_constraints, validate_service_provider}
use policy_manager.Service.Constraints.Validate.{JsonSchema, validate_patch}

pub data EvaluationStatus : Type 0 where
  approved modified : EvaluationStatus

pub record EvaluationRequest (F : Type 0) : Type 0 where
  pub service_instance : Object F
  pub request_labels : Dict String

pub record EvaluationResponse (F : Type 0) : Type 0 where
  pub evaluated_service_instance : Object F
  pub selected_provider : String
  pub status : EvaluationStatus

-- The variables of the loop: `currentSpec`, `selectedProvider` and `constraintCtx`.
pub record Progress (F : Type 0) : Type 0 where
  pub current_spec : Object F
  pub selected_provider : String
  pub constraint_ctx : ConstraintContext F

module _ {F C S K Q : Type 0} (go : Go F) (js : JsonSchema F C S) (rego : Rego F K Q)
    (engine : EmbeddedEngine Q) where
  put_present : String → Option (Object F) → Object F → Object F
  put_present k none o = o
  put_present k (some m) o = put k (obj m) o

  pub opa_input : Progress F → Object F
  unfolding put_present
  opa_input st =
      put_present "service_provider_constraints" (get_sp_constraints_map st.constraint_ctx) (
        put_present "constraints" (get_constraints_map st.constraint_ctx)
          (field "spec" (obj st.current_spec) (field "provider" (str st.selected_provider) empty)))

  -- Step 4, the decision's constraints.
  pub merge_decision_constraints :
      String → Option (Object F) → ConstraintContext F → Result ServiceError (ConstraintContext F)
  merge_decision_constraints policy_id none ctx = ok ctx
  merge_decision_constraints policy_id (some constraints) ctx =
      map_err (λ e. new_constraint_conflict_error policy_id e.field_path e.set_by_policy e.reason)
        (merge_constraints go constraints policy_id ctx)

  violated :
      String → List ConstraintViolation → Object F → Object F → Result ServiceError (Object F)
  violated policy_id [] patch spec =
      map_err (λ e. new_internal_error "Failed to merge patch into current spec" e (some e))
        (merge_patch go spec patch)
  violated policy_id (v ∷ vs) patch spec = err (new_constraint_violation_error policy_id (v ∷ vs))

  -- Steps 6 and 7, the decision's patch.
  apply_patch :
      String → Option (Object F) → ConstraintContext F → Object F → Result ServiceError (Object F)
  unfolding violated
  apply_patch policy_id none ctx spec = ok spec
  apply_patch policy_id (some patch) ctx spec =
      violated policy_id (validate_patch js go ctx patch) patch spec

  -- Step 8, the decision's provider.
  select_provider : String → String → ConstraintContext F → String → Result ServiceError String
  select_provider policy_id provider ctx current =
      if provider == ""
      then ok current
      else map_err (new_service_provider_constraint_error policy_id)
          (validate_service_provider go provider ctx)
        >>= λ _. ok provider

  pub decide : String → PolicyDecision F → Progress F → Result ServiceError (Progress F)
  unfolding merge_decision_constraints apply_patch select_provider
  decide policy_id decision st =
      if decision.rejected
      then err (new_policy_rejected_error policy_id decision.rejection_reason)
      else do
        ctx ← merge_decision_constraints policy_id decision.constraints st.constraint_ctx
        ctx' ←
            map_err (new_service_provider_constraint_error policy_id)
              (merge_sp_constraints decision.service_provider_constraints policy_id ctx)
        spec ← apply_patch policy_id decision.patch ctx' st.current_spec
        provider ← select_provider policy_id decision.selected_provider ctx' st.selected_provider
        ok (record { current_spec = spec; selected_provider = provider; constraint_ctx = ctx' })

  -- A policy that is undefined is skipped.
  follow : String → EvaluationResult F → Progress F → Result ServiceError (Progress F)
  unfolding decide
  follow policy_id r st =
      if r.defined then decide policy_id (parse_policy_decision r.result) st else ok st

  unfoldable pub evaluate_policy : Policy → Progress F → Result ServiceError (Progress F)
  unfolding follow opa_input
  evaluate_policy policy st = do
    r ←
        map_err
          (λ e.
            new_internal_error (sprintf ("Failed to evaluate policy '" ∷ policy.id ∷ "'" ∷ []))
              (engine_error_text e) (some (engine_error_text e)))
          (Engine.evaluate_policy rego engine policy.id (opa_input st))
    follow policy.id r st

  -- The loop over one page: a policy whose labels do not match is passed over.
  unfoldable pub evaluate_page :
      Dict String → List Policy → Progress F → Result ServiceError (Progress F)
  evaluate_page labels [] st = ok st
  evaluate_page labels (policy ∷ policies) st =
      (if matches_label_selector policy.label_selector labels
        then evaluate_policy policy st
        else ok st)
      >>= λ st'. evaluate_page labels policies st'
