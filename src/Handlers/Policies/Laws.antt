-- ===== src/Handlers/Policies/Laws.antt =====
-- internal/handlers/v1alpha1/policy.go: what a call of the policy API leaves.
use policy_manager.Base.{
  ◌≤◌, arith, ◌≡◌, refl, ap, ◌⊎◌, inl, inr, String, Option, none, some, Result, ok, err, map_err,
}
use policy_manager.Base.Int.{ℤ}
use policy_manager.Opa.Engine.{Rego}
use policy_manager.Api.Types
use policy_manager.Api.Server
use policy_manager.Api.Server.{
  CreatePolicyResponse, create_policy_201, create_policy_400, create_policy_409, create_policy_500,
  UpdatePolicyResponse, DeletePolicyResponse,
}
use policy_manager.Store.Model
use policy_manager.Store.Interface.{PolicyStore}
use policy_manager.Service.Errors.{ServiceError}
use policy_manager.Service.Converter.{api_to_db_model, db_to_api_model}
use policy_manager.Service.Policies.Operations.{World}
use policy_manager.Service.Policies.Operations
use policy_manager.Service.Policies.Operations.Laws.{
  InSync, IsTransactional, IsAllOrNothing, create_policy-atomic,
}
use policy_manager.Handlers.Conversions.{policy_server_to_v1_alpha1, policy_v1_alpha1_to_server}
use policy_manager.Handlers.Errors.{service_error, handle_create_policy_error}
use policy_manager.Handlers.Errors.Laws.{create_answer, handle_create_policy_error-IsProblem}
use policy_manager.Handlers.Policies.Service.{PolicyService, new_policy_service}
use policy_manager.Handlers.Policies.{created, create_policy}

ok_injective :
    {a b : Types.Policy} → ◌≡◌ {A = Result ServiceError Types.Policy} (ok a) (ok b) → a ≡ b
ok_injective h = cc

module _ {D F K Q : Type 0} (store : PolicyStore D) (rego : Rego F K Q) (decimal : ℤ → String)
    (to_upper : String → String) where
  -- The service that the handlers work on.
  abbrev pub api : String → PolicyService (World D Q)
  api uuid = new_policy_service store rego decimal to_upper uuid

  -- A creation over HTTP has written a row, answered 201 with it, and put the engine in step, or it has
  -- answered with an error and changed nothing.
  abbrev pub IsCreation :
      Option Server.Policy → World D Q → CreatePolicyResponse × World D Q → Type 0
  IsCreation none w out = (400 ≤ (create_answer out.0).0) × (out.1 ≡ w)
  IsCreation (some body) w out =
      ((id : String) × (row : Model.Policy) × ((store.create
            (api_to_db_model (policy_server_to_v1_alpha1 body) id) w.db).0
          ≡ ok row)
        × (out.0 ≡ create_policy_201 "" (policy_v1_alpha1_to_server (db_to_api_model row)))
        × (out.1.db ≡ (store.create (api_to_db_model (policy_server_to_v1_alpha1 body) id) w.db).1)
        × InSync store rego decimal out.1)
      ⊎ ((400 ≤ (create_answer out.0).0) × (out.1 ≡ w))

  created-IsCreation :
      (uuid : String) (body : Server.Policy) (w : World D Q)
      (r : Result ServiceError Types.Policy × World D Q)
      → (((id : String) × IsAllOrNothing store rego decimal w
              (store.create (api_to_db_model (policy_server_to_v1_alpha1 body) id) w.db)
              r)
          ⊎ ((e : ServiceError) × (r ≡ (err e, w))))
      → IsCreation (some body) w (created (api uuid) (map_err service_error r.0, r.1))
  unfolding created handle_create_policy_error
  created-IsCreation uuid body w (ok p, w') (inl (id, inl (row, wrote, answer, db, sync))) = inl (
    id,
    row,
    wrote,
    ap (λ x. create_policy_201 "" (policy_v1_alpha1_to_server x)) (ok_injective answer),
    db,
    sync,
  )
  created-IsCreation uuid body w (ok p, w') (inl (id, inr (e, failed, same))) = cc
  created-IsCreation uuid body w (ok p, w') (inr (e, h)) = cc
  created-IsCreation uuid body w (err x, w') (inl (id, inl (row, wrote, answer, db, sync))) = cc
  created-IsCreation uuid body w (err x, w') (inl (id, inr (e, failed, same))) =
      inr ((handle_create_policy_error-IsProblem (service_error x)).3, same)
  created-IsCreation uuid body w (err x, w') (inr (e, h)) =
      inr ((handle_create_policy_error-IsProblem (service_error x)).3, ap (λ r. r.1) h)

  -- Over a transactional store, a call of CreatePolicy over HTTP has written the row of the body,
  -- answered 201 with what was stored, and put the engine in step with the database, or it has answered
  -- with a status of 400 or more and changed neither the database nor the engine. A call without a body
  -- does the latter.
  pub create_policy-IsCreation :
      (uuid : String) (body : Option Server.Policy) (id : Option String) (w : World D Q)
      → IsTransactional store
      → IsCreation body w (create_policy (api uuid) body id w)
  unfolding create_policy
  create_policy-IsCreation uuid none id w laws = (omega arith, refl)
  create_policy-IsCreation uuid (some body) id w laws =
      created-IsCreation uuid body w
        (Operations.create_policy store rego decimal uuid (policy_server_to_v1_alpha1 body) id w)
        (create_policy-atomic store rego decimal uuid (policy_server_to_v1_alpha1 body) id w laws)
