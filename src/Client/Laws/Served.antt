-- ===== src/Client/Laws/Served.antt =====
-- The client of pkg/client against the server of internal/api/server and the handlers of
-- internal/handlers/v1alpha1: a call of the client is a call of the handler.
use policy_manager.Base.{◌≡◌, refl, String, Option, some, List, Result, ok, ◌>>=◌}
use policy_manager.Api.Types
use policy_manager.Api.Types.{ListPoliciesParams}
use policy_manager.Api.Codec.{Codec}
use policy_manager.Api.Server.Strict
use policy_manager.Api.Server.Strict.{StrictServer}
use policy_manager.Api.Server.Wrapper.{
  Binding, HttpRequest, Operation, create_policy, wrapped, serve,
}
use policy_manager.Handlers.Conversions.{policy_v1_alpha1_to_server}
use policy_manager.Handlers.Policies
use policy_manager.Handlers.Policies.Service.{PolicyService}
use policy_manager.Handlers.Policies.Strict.{policy_handler}
use policy_manager.Client.Responses.{Reply, reply}
use policy_manager.Client.Responses.Parse.{parse_create_policy_response}
use policy_manager.Client.Requests.{Urls, Request, new_create_policy_request}
use policy_manager.Client.Requests.Calls.{
  RequestEditorFn, HttpRequestDoer, Client, apply_editors, send, parsed,
  create_policy_with_response,
}
use policy_manager.Client.Laws.Decoded.{CreatePolicyDecoded}
use policy_manager.Client.Laws.Shown.{CreatePolicyShows, create_policy_reply}
use policy_manager.Client.Laws.Shown.Writes.{create_policy_reply-Shows}

-- The network between the two: how chi routes a request, and what arrives of it.
pub record Network (V : Type 0) : Type 0 where
  pub route : Request → Operation
  pub arrive : Request → HttpRequest V

module _ {W U V : Type 0} (urls : Urls U) (codec : Codec) (network : Network V)
    (binding : Binding V) (service : PolicyService W) where
  -- The doer of a client that is connected to the server.
  abbrev pub connected : HttpRequestDoer W
  connected req w =
      let (r, w') =
        serve binding codec (policy_handler service) (network.route req) (network.arrive req) w in
      (ok (reply r), w')

  module _ (server : String) (own editors : List RequestEditorFn) where
    abbrev pub client : Client W
    client = record { server = server; client = connected; request_editors = own }

    -- A request is built, passes the editors, and is routed to its operation.
    abbrev pub IsSent : Operation → Result String Request → Request → Type 0
    IsSent operation built req =
        ((built >>= λ r. apply_editors client editors r) ≡ ok req) × (network.route req ≡ operation)

    -- CreatePolicyWithResponse of the client leaves the server in the state in which the handler leaves
    -- it for the same policy and id, and returns what it parses of the handler's response: its status,
    -- and its body in the field of that status. This assumes that the request is built, passes the
    -- editors and is routed to CreatePolicy, that the server reads from it the id and the policy, and that
    -- encoding/json decodes the body of the response to what was encoded.
    pub create_policy_with_response-served :
        (id : Option String) (policy : Types.Policy) (w : W) (req : Request)
        → CreatePolicyDecoded codec
            (Policies.create_policy service (some (policy_v1_alpha1_to_server policy)) id w).0
        → IsSent create_policy
            (new_create_policy_request urls codec.marshal_policy server (some id) policy)
            req
        → binding.bind_string "id" (network.arrive req).query ≡ ok id
        → codec.decode_body (network.arrive req).body ≡ ok (policy_v1_alpha1_to_server policy)
        → let (response, w') =
            Policies.create_policy service (some (policy_v1_alpha1_to_server policy)) id w in
          (rsp : Reply) × (create_policy_with_response urls codec client editors (some id) policy w
            ≡ (parse_create_policy_response codec rsp, w'))
          × CreatePolicyShows codec response rsp
    unfolding create_policy_with_response send parsed serve wrapped Strict.create_policy
    create_policy_with_response-served id policy w req back sent bound decoded =
        let response =
          (Policies.create_policy service (some (policy_v1_alpha1_to_server policy)) id w).0 in
        (
          create_policy_reply codec response,
          rw sent.0 (rw sent.1 (rw bound (rw decoded refl))),
          create_policy_reply-Shows codec response back,
        )
