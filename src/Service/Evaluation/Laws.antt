-- ===== src/Service/Evaluation/Laws.antt =====
-- What one policy may do to a request, and what the policies do together.
use policy_manager.Base.{
  ◌≡◌, ◌≢◌, refl, sym, ap, ◌∙◌, eq_iff, subst, ◌⊎◌, inl, inr, false, String, Option, none, some,
  List, [], ◌∷◌, ◌==◌, Result, ok, err, map_err, >>=-eq-ok, Bool-cases, Result-cases,
}
use mathlib.Core.Bool.{false≢true}
use policy_manager.Base.Dict.{Dict}
use policy_manager.Json.{Object}
use policy_manager.Json.Go.{Go}
use policy_manager.Opa.Decision.{PolicyDecision, EvaluationResult, parse_policy_decision}
use policy_manager.Opa.Engine.{Rego, EmbeddedEngine, engine_error_text}
use policy_manager.Opa.Engine
use policy_manager.Store.Model.{Policy}
use policy_manager.Service.Errors.{ServiceError, new_service_provider_constraint_error}
use policy_manager.Service.Constraints.Context.Laws.{merge_constraints-sp}
use policy_manager.Service.Labels.{matches_label_selector}
use policy_manager.Service.Constraints.Context.{ConstraintContext, merge_constraints}
use policy_manager.Service.Constraints.Providers.{merge_sp_constraints, validate_service_provider}
use policy_manager.Service.Constraints.Providers.Laws.{
  validate_service_provider-merge_sp_constraints, validate_service_provider-same,
}
use policy_manager.Service.Constraints.Validate.{JsonSchema}
use policy_manager.Service.Evaluation.{
  Progress, merge_decision_constraints, apply_patch, select_provider, decide, follow,
  evaluate_policy, evaluate_page, opa_input,
}

module _ {F : Type 0} (go : Go F) where
  -- A provider is allowed by the constraints gathered so far.
  abbrev pub IsAllowed : String → Progress F → Type 0
  IsAllowed provider st = validate_service_provider go provider st.constraint_ctx ≡ ok tt

  -- The three ways on: nothing changes, the provider stays, or a new provider is set that is allowed.
  pub record Follows (st st' : Progress F) : Type 0 where
    pub narrower :
        (provider : String)
        → (provider == "") ≡ false
        → IsAllowed provider st'
        → IsAllowed provider st
    pub provider :
        (st'.selected_provider ≡ st.selected_provider)
        ⊎ ((st'.selected_provider ≢ "") × IsAllowed st'.selected_provider st')

  Follows-refl : (st : Progress F) → Follows st st
  Follows-refl st = record { narrower = λ p n h. h; provider = inl refl }

module _ {F C S K Q : Type 0} (go : Go F) (js : JsonSchema F C S) (rego : Rego F K Q)
    (engine : EmbeddedEngine Q) where
  text-ok-inj : (x y : String) → ◌≡◌ {A = Result ServiceError String} (ok x) (ok y) → x ≡ y
  text-ok-inj x y h = cc

  select_provider-cases :
      (id p : String) (ctx : ConstraintContext F) (current r : String)
      → select_provider go js rego engine id p ctx current ≡ ok r
      → (r ≡ current) ⊎ ((r ≢ "") × (validate_service_provider go r ctx ≡ ok tt))
  unfolding select_provider
  select_provider-cases id p ctx current r h = elim (Bool-cases (p == "")) [
    | inl e ↦ inl (text-ok-inj r current (sym (rw (e, select_provider) at h)))
    | inr n ↦
        let checked = rw (n, select_provider) at h in
        elim (Result-cases (validate_service_provider go p ctx)) [
          | inl (u, v) ↦
              let same = text-ok-inj p r (rw v at checked) in
              inr (rw (← same) (λ e. false≢true (sym n ∙ (eq_iff p "").1 e)), rw (← same) v)
          | inr (e, v) ↦ absurd (cc (rw v at checked))
        ]
  ]

  context-ok-inj :
      (x y : ConstraintContext F)
      → ◌≡◌ {A = Result ServiceError (ConstraintContext F)} (ok x) (ok y)
      → x ≡ y
  context-ok-inj x y h = cc

  progress-ok-inj :
      (x y : Progress F) → ◌≡◌ {A = Result ServiceError (Progress F)} (ok x) (ok y) → x ≡ y
  progress-ok-inj x y h = cc

  map_err-eq-ok :
      {E H A : Type 0} (f : E → H) (m : Result E A) (a : A) → map_err f m ≡ ok a → m ≡ ok a
  map_err-eq-ok f (ok b) a h = cc
  map_err-eq-ok f (err e) a h = cc

  decision_constraints-sp :
      (id : String) (o : Option (Object F)) (c c' : ConstraintContext F)
      → merge_decision_constraints go js rego engine id o c ≡ ok c'
      → c'.service_provider_constraints ≡ c.service_provider_constraints
  unfolding merge_decision_constraints
  decision_constraints-sp id none c c' h =
      ap (λ (x : ConstraintContext F). x.service_provider_constraints) (sym (context-ok-inj c c' h))
  decision_constraints-sp id (some o) c c' h = elim (Result-cases (merge_constraints go o id c)) [
    | inl (d, e) ↦
        ap (λ (x : ConstraintContext F). x.service_provider_constraints)
          (sym (context-ok-inj d c' (rw e at h)))
        ∙ merge_constraints-sp go o id c d e
    | inr (x, e) ↦ absurd (cc (rw e at h))
  ]

  decide-Follows :
      (id : String) (d : PolicyDecision F) (st st' : Progress F)
      → decide go js rego engine id d st ≡ ok st'
      → Follows go st st'
  unfolding decide
  decide-Follows id d st st' h = elim (Bool-cases d.rejected) [
    | inl r ↦ absurd (cc (rw (r, decide) at h))
    | inr n ↦
        let (ctx, h1, k1) =
          >>=-eq-ok
            (merge_decision_constraints go js rego engine id d.constraints st.constraint_ctx) _
            (rw (n, decide) at h) in
        let (ctx', h2, k2) =
          >>=-eq-ok
            (map_err (new_service_provider_constraint_error id)
              (merge_sp_constraints d.service_provider_constraints id ctx))
            _ k1 in
        let (spec, h3, k3) =
          >>=-eq-ok (apply_patch go js rego engine id d.patch ctx' st.current_spec) _ k2 in
        let (p, h4, k4) =
          >>=-eq-ok
            (select_provider go js rego engine id d.selected_provider ctx' st.selected_provider) _
            k3 in
        let merged =
          map_err-eq-ok _ (merge_sp_constraints d.service_provider_constraints id ctx) ctx' h2 in
        let same_sp = decision_constraints-sp id d.constraints st.constraint_ctx ctx h1 in
        subst (Follows go st) (progress-ok-inj _ st' k4) (record {
          narrower = λ q ne allowed.
              let (before, own) =
                (validate_service_provider-merge_sp_constraints go d.service_provider_constraints id
                    q ctx ctx' ne merged).0
                  allowed in
              sym (validate_service_provider-same go q st.constraint_ctx ctx same_sp) ∙ before;
          provider = select_provider-cases id d.selected_provider ctx' st.selected_provider p h4;
        })
  ]

  follow-Follows :
      (id : String) (r : EvaluationResult F) (st st' : Progress F)
      → follow go js rego engine id r st ≡ ok st'
      → Follows go st st'
  unfolding follow
  follow-Follows id r st st' h = elim (Bool-cases r.defined) [
    | inl e ↦ decide-Follows id (parse_policy_decision r.result) st st' (rw (e, follow) at h)
    | inr e ↦
        subst (Follows go st) (progress-ok-inj st st' (rw (e, follow) at h)) (Follows-refl go st)
  ]

  -- A policy that does not fail narrows what providers are allowed, and leaves the selected provider or
  -- selects a non-empty one that all constraints so far, its own included, allow.
  pub evaluate_policy-Follows :
      (policy : Policy) (st st' : Progress F)
      → evaluate_policy go js rego engine policy st ≡ ok st'
      → Follows go st st'
  unfolding evaluate_policy
  evaluate_policy-Follows policy st st' h =
      let (r, e, later) =
        >>=-eq-ok
          (map_err _
            (Engine.evaluate_policy rego engine policy.id (opa_input go js rego engine st)))
          _ h in
      follow-Follows policy.id r st st' later

  -- The policies of a page only ever narrow what providers are allowed.
  pub evaluate_page-narrows :
      (labels : Dict String) (policies : List Policy) (st st' : Progress F) (provider : String)
      → (provider == "") ≡ false
      → evaluate_page go js rego engine labels policies st ≡ ok st'
      → IsAllowed go provider st'
      → IsAllowed go provider st
  unfolding evaluate_page
  evaluate_page-narrows labels [] st st' p ne h a = rw (progress-ok-inj st st' h) a
  evaluate_page-narrows labels (policy ∷ policies) st st' p ne h a =
      elim (Bool-cases (matches_label_selector policy.label_selector labels)) [
        | inl e ↦
            let (mid, first, later) =
              >>=-eq-ok (evaluate_policy go js rego engine policy st) _
                (rw (e, evaluate_page) at h) in
            (evaluate_policy-Follows policy st mid first).narrower p ne
              (evaluate_page-narrows labels policies mid st' p ne later a)
        | inr e ↦ evaluate_page-narrows labels policies st st' p ne (rw (e, evaluate_page) at h) a
      ]
