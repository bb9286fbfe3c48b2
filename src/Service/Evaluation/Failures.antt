-- ===== src/Service/Evaluation/Failures.antt =====
-- internal/service/evaluation.go: the errors that an evaluation returns.
use policy_manager.Base.{
  ◌≡◌, refl, false, ok, err, Result, Bool-cases, inl, inr, ◌⊎◌, String, Option, none, some, List,
  [], ◌∷◌, ◌==◌, Fails, Fails->>=, Fails-map_err,
}
use policy_manager.Base.Dict.{Dict}
use policy_manager.Json.{Object}
use policy_manager.Json.Go.{Go}
use policy_manager.Opa.Decision.{PolicyDecision, EvaluationResult, parse_policy_decision}
use policy_manager.Opa.Engine.{Rego, EmbeddedEngine, EngineError}
use policy_manager.Opa.Engine
use policy_manager.Store.Model.{Policy}
use policy_manager.Service.Errors.{
  ServiceError, ConstraintViolation, internal, rejected, policy_conflict, new_internal_error,
  new_policy_rejected_error, new_constraint_conflict_error, new_constraint_violation_error,
  new_service_provider_constraint_error,
}
use policy_manager.Service.Labels.{matches_label_selector}
use policy_manager.Service.Patch.{merge_patch}
use policy_manager.Service.Constraints.Context.{ConstraintContext, merge_constraints}
use policy_manager.Service.Constraints.Providers.{merge_sp_constraints, validate_service_provider}
use policy_manager.Service.Constraints.Validate.{JsonSchema, validate_patch}
use policy_manager.Service.Evaluation.{
  Progress, merge_decision_constraints, violated, apply_patch, select_provider, decide, follow,
  opa_input, evaluate_policy, evaluate_page,
}

-- The types of error that a policy has that does not reject the request.
abbrev pub IsOwnError : ServiceError → Type 0
IsOwnError e = (e.type ≡ internal) ⊎ (e.type ≡ policy_conflict)

-- The types of error that an evaluation has.
abbrev pub IsEvaluationError : ServiceError → Type 0
IsEvaluationError e = (e.type ≡ internal) ⊎ ((e.type ≡ rejected) ⊎ (e.type ≡ policy_conflict))

IsOwnError-IsEvaluationError : (e : ServiceError) → IsOwnError e → IsEvaluationError e
IsOwnError-IsEvaluationError e (inl t) = inl t
IsOwnError-IsEvaluationError e (inr t) = inr (inr t)

Fails-weaken :
    {A : Type 0} (r : Result ServiceError A) → Fails IsOwnError r → Fails IsEvaluationError r
Fails-weaken (ok a) h = tt
Fails-weaken (err e) h = IsOwnError-IsEvaluationError e h

module _ {F C S K Q : Type 0} (go : Go F) (js : JsonSchema F C S) (rego : Rego F K Q)
    (engine : EmbeddedEngine Q) where
  merge_decision_constraints-Fails :
      (id : String) (constraints : Option (Object F)) (ctx : ConstraintContext F)
      → Fails IsOwnError (merge_decision_constraints go js rego engine id constraints ctx)
  unfolding merge_decision_constraints new_constraint_conflict_error
  merge_decision_constraints-Fails id none ctx = tt
  merge_decision_constraints-Fails id (some constraints) ctx =
      Fails-map_err IsOwnError _ (merge_constraints go constraints id ctx) (λ e. inr refl)

  violated-Fails :
      (id : String) (violations : List ConstraintViolation) (patch spec : Object F)
      → Fails IsOwnError (violated go js rego engine id violations patch spec)
  unfolding violated new_internal_error new_constraint_violation_error
  violated-Fails id [] patch spec =
      Fails-map_err IsOwnError _ (merge_patch go spec patch) (λ e. inl refl)
  violated-Fails id (v ∷ vs) patch spec = inr refl

  apply_patch-Fails :
      (id : String) (patch : Option (Object F)) (ctx : ConstraintContext F) (spec : Object F)
      → Fails IsOwnError (apply_patch go js rego engine id patch ctx spec)
  unfolding apply_patch
  apply_patch-Fails id none ctx spec = tt
  apply_patch-Fails id (some patch) ctx spec =
      violated-Fails id (validate_patch js go ctx patch) patch spec

  provider-IsOwnError :
      (id detail : String) → IsOwnError (new_service_provider_constraint_error id detail)
  unfolding new_service_provider_constraint_error
  provider-IsOwnError id detail = inr refl

  select_provider-Fails :
      (id provider : String) (ctx : ConstraintContext F) (current : String)
      → Fails IsOwnError (select_provider go js rego engine id provider ctx current)
  unfolding select_provider
  select_provider-Fails id provider ctx current = elim (Bool-cases (provider == "")) [
    | inl e ↦ rw e tt
    | inr e ↦ rw e (
        Fails->>= IsOwnError _ _
          (Fails-map_err IsOwnError _ (validate_service_provider go provider ctx)
            (provider-IsOwnError id))
          (λ u. tt))
  ]

  pub decide-IsOwnError :
      (id : String) (decision : PolicyDecision F) (st : Progress F)
      → decision.rejected ≡ false
      → Fails IsOwnError (decide go js rego engine id decision st)
  unfolding decide
  decide-IsOwnError id decision st e = rw e (
      Fails->>= IsOwnError _ _
        (merge_decision_constraints-Fails id decision.constraints st.constraint_ctx)
        (λ ctx.
          Fails->>= IsOwnError _ _
            (Fails-map_err IsOwnError _
              (merge_sp_constraints decision.service_provider_constraints id ctx)
              (provider-IsOwnError id))
            (λ ctx'.
              Fails->>= IsOwnError _ _ (apply_patch-Fails id decision.patch ctx' st.current_spec)
                (λ spec.
                  Fails->>= IsOwnError _ _
                    (select_provider-Fails id decision.selected_provider ctx' st.selected_provider)
                    (λ provider. tt)))))

  decide-Fails :
      (id : String) (decision : PolicyDecision F) (st : Progress F)
      → Fails IsEvaluationError (decide go js rego engine id decision st)
  unfolding decide new_policy_rejected_error
  decide-Fails id decision st = elim (Bool-cases decision.rejected) [
    | inl e ↦ rw e (inr (inl refl))
    | inr e ↦
        Fails-weaken (decide go js rego engine id decision st) (decide-IsOwnError id decision st e)
  ]

  follow-Fails :
      (id : String) (r : EvaluationResult F) (st : Progress F)
      → Fails IsEvaluationError (follow go js rego engine id r st)
  unfolding follow
  follow-Fails id r st = elim (Bool-cases r.defined) [
    | inl e ↦ rw e (decide-Fails id (parse_policy_decision r.result) st)
    | inr e ↦ rw e tt
  ]

  pub evaluate_policy-Fails :
      (policy : Policy) (st : Progress F)
      → Fails IsEvaluationError (evaluate_policy go js rego engine policy st)
  unfolding evaluate_policy new_internal_error
  evaluate_policy-Fails policy st =
      Fails->>= IsEvaluationError _ _
        (Fails-map_err IsEvaluationError _
          (Engine.evaluate_policy rego engine policy.id (opa_input go js rego engine st))
          (λ e. inl refl))
        (λ r. follow-Fails policy.id r st)

  pub evaluate_page-Fails :
      (labels : Dict String) (policies : List Policy) (st : Progress F)
      → Fails IsEvaluationError (evaluate_page go js rego engine labels policies st)
  unfolding evaluate_page
  evaluate_page-Fails labels [] st = tt
  evaluate_page-Fails labels (policy ∷ policies) st =
      elim (Bool-cases (matches_label_selector policy.label_selector labels)) [
        | inl e ↦ rw e (
            Fails->>= IsEvaluationError _ _ (evaluate_policy-Fails policy st)
              (λ st'. evaluate_page-Fails labels policies st'))
        | inr e ↦ rw e (evaluate_page-Fails labels policies st)
      ]
