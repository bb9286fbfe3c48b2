-- ===== src/Service/Evaluation/Request/Fold.antt =====
-- The pass over all policies that internal/service/evaluation.go makes page by page.
use policy_manager.Base.{
  ◌≡◌, refl, String, List, [], ◌∷◌, ◌++◌, Result, ok, ◌>>=◌, if◌then◌else◌, Bool-cases,
  Result-cases, inl, inr,
}
use policy_manager.Base.Dict.{Dict}
use policy_manager.Json.{Object}
use policy_manager.Json.Go.{Go}
use policy_manager.Opa.Engine.{Rego, EmbeddedEngine}
use policy_manager.Store.Model.{Policy}
use policy_manager.Service.Errors.{ServiceError}
use policy_manager.Service.Labels.{matches_label_selector}
use policy_manager.Service.Constraints.Context.{new_constraint_context}
use policy_manager.Service.Constraints.Validate.{JsonSchema}
use policy_manager.Service.Evaluation.{
  approved, modified, EvaluationRequest, EvaluationResponse, Progress, evaluate_policy,
  evaluate_page,
}

-- The policies of a list whose labels match.
unfoldable pub applicable : Dict String → List Policy → List Policy
applicable labels [] = []
applicable labels (p ∷ ps) =
    if matches_label_selector p.label_selector labels
    then p ∷ applicable labels ps
    else applicable labels ps

-- The state before the first policy.
abbrev pub begun : {F : Type 0} → Object F → Progress F
begun spec = record {
  current_spec = spec;
  selected_provider = "";
  constraint_ctx = new_constraint_context;
}

module _ {F C S K Q : Type 0} (go : Go F) (js : JsonSchema F C S) (rego : Rego F K Q)
    (engine : EmbeddedEngine Q) where
  -- Each policy on what the ones before it have left, up to the first error.
  unfoldable pub evaluate_all : List Policy → Progress F → Result ServiceError (Progress F)
  evaluate_all [] st = ok st
  evaluate_all (p ∷ ps) st = evaluate_policy go js rego engine p st >>= λ st'. evaluate_all ps st'

  -- The response that a final state gives.
  abbrev pub answer : EvaluationRequest F → Progress F → EvaluationResponse F
  answer req st = record {
    evaluated_service_instance = st.current_spec;
    selected_provider = st.selected_provider;
    status = if go.deep_equal req.service_instance st.current_spec then approved else modified;
  }

  pub evaluate_page-append :
      (labels : Dict String) (xs ys : List Policy) (st : Progress F)
      → evaluate_page go js rego engine labels (xs ++ ys) st ≡ (
          evaluate_page go js rego engine labels xs st >>= λ st'.
          evaluate_page go js rego engine labels ys st')
  unfolding evaluate_page
  evaluate_page-append labels [] ys st = refl
  evaluate_page-append labels (x ∷ xs) ys st =
      elim (Result-cases (
        if matches_label_selector x.label_selector labels
        then evaluate_policy go js rego engine x st
        else ok st)) [
          | inl (st', e) ↦ rw e (evaluate_page-append labels xs ys st')
          | inr (x, e) ↦ rw e refl
        ]

  pub evaluate_page-applicable :
      (labels : Dict String) (ps : List Policy) (st : Progress F)
      → evaluate_page go js rego engine labels ps st ≡ evaluate_all (applicable labels ps) st
  unfolding evaluate_page evaluate_all applicable
  evaluate_page-applicable labels [] st = refl
  evaluate_page-applicable labels (p ∷ ps) st =
      elim (Bool-cases (matches_label_selector p.label_selector labels)) [
        | inl e ↦ elim (Result-cases (evaluate_policy go js rego engine p st)) [
          | inl (st', k) ↦ rw e (rw k (evaluate_page-applicable labels ps st'))
          | inr (x, k) ↦ rw e (rw k refl)
        ]
        | inr e ↦ rw e (evaluate_page-applicable labels ps st)
      ]
