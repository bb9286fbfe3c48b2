-- ===== src/Service/Evaluation/Request/Failures.antt =====
-- internal/service/evaluation.go: the errors that `EvaluateRequest` returns.
use policy_manager.Base.{
  ℕ, zero, suc, refl, Bool-cases, inl, inr, String, Option, none, some, ◌==◌, Result, ok, err,
  Fails,
}
use policy_manager.Base.Dict.{Dict}
use policy_manager.Json.{Object}
use policy_manager.Json.Go.{Go}
use policy_manager.Opa.Engine.{Rego, EmbeddedEngine}
use policy_manager.Store.Model.{PolicyListOptions, PolicyListResult}
use policy_manager.Service.Errors.{ServiceError, new_internal_error}
use policy_manager.Service.Constraints.Validate.{JsonSchema}
use policy_manager.Service.Evaluation.{EvaluationRequest, Progress}
use policy_manager.Service.Evaluation.Failures.{IsEvaluationError, evaluate_page-Fails}
use policy_manager.Service.Evaluation.Request.{
  page_options, end_of_page, round, evaluate_pages, finish, evaluate_copy, evaluate_request,
}

-- An error of a call that returns has the type of an evaluation's error.
abbrev pub IsSound {ℓ} : {A : Type ℓ} → Option (Result ServiceError A) → Type 0
IsSound none = Unit
IsSound (some r) = Fails IsEvaluationError r

module _ {F C S K Q : Type 0} (go : Go F) (js : JsonSchema F C S) (rego : Rego F K Q)
    (engine : EmbeddedEngine Q) (list : PolicyListOptions → Result String PolicyListResult) where
  end_of_page-IsSound :
      (next : Option String → Progress F → Option (Result ServiceError (Progress F)))
      (token : String) (r : Result ServiceError (Progress F))
      → Fails IsEvaluationError r
      → ((t : Option String) (st : Progress F) → IsSound (next t st))
      → IsSound (end_of_page go js rego engine list next token r)
  unfolding end_of_page
  end_of_page-IsSound next token (err e) h k = h
  end_of_page-IsSound next token (ok st) h k = elim (Bool-cases (token == "")) [
    | inl e ↦ rw e tt
    | inr e ↦ rw e (k (some token) st)
  ]

  round-IsSound :
      (next : Option String → Progress F → Option (Result ServiceError (Progress F)))
      (labels : Dict String) (st : Progress F) (page : Result String PolicyListResult)
      → ((t : Option String) (st : Progress F) → IsSound (next t st))
      → IsSound (round go js rego engine list next labels st page)
  unfolding round new_internal_error
  round-IsSound next labels st (err e) k = inl refl
  round-IsSound next labels st (ok page) k =
      end_of_page-IsSound next page.next_page_token _
        (evaluate_page-Fails go js rego engine labels page.policies st) k

  evaluate_pages-IsSound :
      (fuel : ℕ) (labels : Dict String) (token : Option String) (st : Progress F)
      → IsSound (evaluate_pages go js rego engine list fuel labels token st)
  unfolding evaluate_pages
  evaluate_pages-IsSound zero labels token st = tt
  evaluate_pages-IsSound (suc fuel) labels token st =
      round-IsSound _ labels st (list (page_options token)) (evaluate_pages-IsSound fuel labels)

  finish-IsSound :
      (req : EvaluationRequest F) (r : Option (Result ServiceError (Progress F)))
      → IsSound r
      → IsSound (finish go js rego engine list req r)
  unfolding finish
  finish-IsSound req none h = tt
  finish-IsSound req (some (err e)) h = h
  finish-IsSound req (some (ok st)) h = tt

  evaluate_copy-IsSound :
      (fuel : ℕ) (req : EvaluationRequest F) (r : Result String (Object F))
      → IsSound (evaluate_copy go js rego engine list fuel req r)
  unfolding evaluate_copy new_internal_error
  evaluate_copy-IsSound fuel req (err e) = inl refl
  evaluate_copy-IsSound fuel req (ok spec) =
      finish-IsSound req _ (evaluate_pages-IsSound fuel req.request_labels none _)

  pub evaluate_request-IsSound :
      (fuel : ℕ) (req : EvaluationRequest F)
      → IsSound (evaluate_request go js rego engine list fuel req)
  unfolding evaluate_request
  evaluate_request-IsSound fuel req =
      evaluate_copy-IsSound fuel req (go.deep_copy req.service_instance)
