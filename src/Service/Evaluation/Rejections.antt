-- ===== src/Service/Evaluation/Rejections.antt =====
-- internal/service/evaluation.go: which errors of a policy are rejections.
use policy_manager.Base.{
  ◌≡◌, refl, ap, sym, subst, ◌↔◌, true, ok, err, Result, map_err, ◌>>=◌, Bool-cases, inl, inr,
  String, Fails,
}
use policy_manager.Json.Go.{Go}
use policy_manager.Opa.Decision.{PolicyDecision, EvaluationResult, parse_policy_decision}
use policy_manager.Opa.Engine.{Rego, EmbeddedEngine, EngineError}
use policy_manager.Opa.Engine
use policy_manager.Store.Model.{Policy}
use policy_manager.Service.Errors.{
  ServiceError, rejected, new_internal_error, new_policy_rejected_error,
}
use policy_manager.Service.Constraints.Validate.{JsonSchema}
use policy_manager.Service.Evaluation.{Progress, decide, follow, opa_input, evaluate_policy}
use policy_manager.Service.Evaluation.Failures.{IsOwnError, decide-IsOwnError}

module _ {F C S K Q : Type 0} (go : Go F) (js : JsonSchema F C S) (rego : Rego F K Q)
    (engine : EmbeddedEngine Q) where
  -- The policy's decision is there, and rejects the request.
  abbrev pub Rejects : Policy → Progress F → Type 0
  Rejects policy st =
      (r : EvaluationResult F) × (Engine.evaluate_policy rego engine policy.id
          (opa_input go js rego engine st)
        ≡ ok r)
      × (r.defined ≡ true)
      × ((parse_policy_decision r.result).rejected ≡ true)

  error_injective :
      {a b : ServiceError} → ◌≡◌ {A = Result ServiceError (Progress F)} (err a) (err b) → a ≡ b
  error_injective h = cc

  result_injective :
      {a b : EvaluationResult F}
      → ◌≡◌ {A = Result EngineError (EvaluationResult F)} (ok a) (ok b)
      → a ≡ b
  result_injective h = cc

  own_error-ne-rejected : (e : ServiceError) → IsOwnError e → e.type ≡ rejected → ⊥
  own_error-ne-rejected e (inl t) h = cc
  own_error-ne-rejected e (inr t) h = cc

  decide_rejected :
      (id : String) (decision : PolicyDecision F) (st : Progress F) (e : ServiceError)
      → decide go js rego engine id decision st ≡ err e
      → (e.type ≡ rejected) ↔ (decision.rejected ≡ true)
  unfolding decide new_policy_rejected_error
  decide_rejected id decision st e h = elim (Bool-cases decision.rejected) [
    | inl given ↦ (
      λ t. given,
      λ t. ap (λ (x : ServiceError). x.type) (sym (error_injective (rw (given, decide) at h))),
    )
    | inr not_given ↦ (
      λ t. absurd (
          own_error-ne-rejected e
            (subst (Fails IsOwnError) h
              (decide-IsOwnError go js rego engine id decision st not_given))
            t),
      λ given. cc,
    )
  ]

  follow_rejected :
      (policy : Policy) (r : EvaluationResult F) (st : Progress F) (e : ServiceError)
      → follow go js rego engine policy.id r st ≡ err e
      → (e.type ≡ rejected)
        ↔ ((r.defined ≡ true) × ((parse_policy_decision r.result).rejected ≡ true))
  unfolding follow
  follow_rejected policy r st e h = elim (Bool-cases r.defined) [
    | inl given ↦
        let (there, back) =
          decide_rejected policy.id (parse_policy_decision r.result) st e
            (rw (given, follow) at h) in
        (λ t. (given, there t), λ (d, x). back x)
    | inr not_given ↦ let h' = rw (not_given, follow) at h in cc
  ]

  evaluated_rejected :
      (policy : Policy) (st : Progress F) (e : ServiceError) (wrap : EngineError → ServiceError)
      (evaluated : Result EngineError (EvaluationResult F))
      → ((x : EngineError) → IsOwnError (wrap x))
      → (map_err wrap evaluated >>= λ r. follow go js rego engine policy.id r st) ≡ err e
      → (e.type ≡ rejected) ↔ (
          (r : EvaluationResult F) × (evaluated ≡ ok r)
          × (r.defined ≡ true)
          × ((parse_policy_decision r.result).rejected ≡ true))
  evaluated_rejected policy st e wrap (err x) own h = (
    λ t. absurd (own_error-ne-rejected e (subst IsOwnError (error_injective h) (own x)) t),
    λ (r, same, d, given). cc,
  )
  evaluated_rejected policy st e wrap (ok r) own h =
      let (there, back) = follow_rejected policy r st e h in
      (
        λ t. let (d, given) = there t in (r, refl, d, given),
        λ (q, same, d, given). back (
            let same_result : q ≡ r = sym (result_injective same) in
            (
              subst (λ x. x.defined ≡ true) same_result d,
              subst (λ (x : EvaluationResult F). (parse_policy_decision x.result).rejected ≡ true)
                  same_result given,
            )),
      )

  -- The error of a policy that fails is a rejection exactly when the
  -- policy's decision is there and rejects the request: whatever constraints, patch or provider the same
  -- decision has, and no other failure of a policy comes out as a rejection.
  pub evaluate_policy_rejected :
      (policy : Policy) (st : Progress F) (e : ServiceError)
      → evaluate_policy go js rego engine policy st ≡ err e
      → (e.type ≡ rejected) ↔ Rejects policy st
  unfolding evaluate_policy new_internal_error
  evaluate_policy_rejected policy st e h =
      evaluated_rejected policy st e _
        (Engine.evaluate_policy rego engine policy.id (opa_input go js rego engine st))
        (λ x. inl refl) h
