-- ===== src/Handlers/Policies/Strict.antt =====
-- internal/handlers/v1alpha1/policy.go: the handlers as the server's interface; each returns a response
-- and a nil error.
use policy_manager.Base.{some, ok}
use policy_manager.Api.Server.{GetHealthResponse, get_health_200}
use policy_manager.Api.Server.Strict.{StrictServer}
use policy_manager.Handlers.Policies
use policy_manager.Handlers.Policies.Service.{PolicyService}

unfoldable pub get_health : GetHealthResponse
get_health = get_health_200 (record { path = some "health"; status = "ok" })

-- `PolicyHandler`
abbrev pub policy_handler : {W : Type 0} → PolicyService W → StrictServer W
policy_handler service = record {
  get_health = λ w. ok get_health;
  list_policies = λ params w. ok (Policies.list_policies service params w);
  create_policy = λ id body w.
      let (response, w') = Policies.create_policy service body id w in (ok response, w');
  delete_policy =
      λ id w. let (response, w') = Policies.delete_policy service id w in (ok response, w');
  get_policy = λ id w. ok (Policies.get_policy service id w);
  update_policy = λ id body w.
      let (response, w') = Policies.update_policy service id body w in (ok response, w');
}
