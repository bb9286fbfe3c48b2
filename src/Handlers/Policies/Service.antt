-- ===== src/Handlers/Policies/Service.antt =====
-- internal/service/policy.go: the interface `PolicyService`, and the service behind it.
use policy_manager.Base.{String, Option, Result, map_err}
use policy_manager.Base.Int.{ℤ}
use policy_manager.Opa.Engine.{Rego}
use policy_manager.Api.Types
use policy_manager.Store.Interface.{PolicyStore}
use policy_manager.Service.Policies.Operations.{World}
use policy_manager.Service.Policies.Operations
use policy_manager.Service.Policies.Listing
use policy_manager.Handlers.Errors.{AnyError, service_error, other_error}

pub record PolicyService (W : Type 0) : Type 0 where
  pub compile_all : W → Result AnyError (Unit {0}) × W
  pub create_policy : Types.Policy → Option String → W → Result AnyError Types.Policy × W
  pub get_policy : String → W → Result AnyError Types.Policy
  pub list_policies :
      Option String
      → Option String
      → Option String
      → Option ℤ
      → W
      → Result AnyError Types.PolicyList
  pub update_policy : String → Option Types.Policy → W → Result AnyError Types.Policy × W
  pub delete_policy : String → W → Result AnyError (Unit {0}) × W

-- `NewPolicyService`. `uuid` is the text of the UUID that the next creation would generate.
abbrev pub new_policy_service :
    {D F K Q : Type 0}
    → PolicyStore D
    → Rego F K Q
    → (decimal : ℤ → String) → (to_upper : String → String) → (uuid : String)
    → PolicyService (World D Q)
new_policy_service store rego decimal to_upper uuid = record {
  compile_all = λ w.
      let r = Operations.recompile_engine store rego decimal w in (map_err other_error r.0, r.1);
  create_policy = λ policy id w.
      let r = Operations.create_policy store rego decimal uuid policy id w in
      (map_err service_error r.0, r.1);
  get_policy = λ id w. map_err service_error (Operations.get_policy store rego decimal id w);
  list_policies = λ filter order_by page_token page_size w.
      map_err service_error
        (Listing.list_policies to_upper store filter order_by page_token page_size w.db);
  update_policy = λ id patch w.
      let r = Operations.update_policy store rego decimal id patch w in
      (map_err service_error r.0, r.1);
  delete_policy = λ id w.
      let r = Operations.delete_policy store rego decimal id w in (map_err service_error r.0, r.1);
}
