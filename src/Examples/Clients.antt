-- ===== src/Examples/Clients.antt =====
-- The clients and the generated servers at concrete values.
use policy_manager.Base.{◌≡◌, refl, String, Option, none, some, [], ◌∷◌, ok, err, ℕ}
use policy_manager.Base.Text.{sprintf}
use policy_manager.Api.Types
use policy_manager.Api.Types.{ErrorCode}
use policy_manager.Api.Server
use policy_manager.Api.Server.{create_policy_409}
use policy_manager.Api.Codec.{Codec}
use policy_manager.Api.Engine
use policy_manager.Api.Engine.{EvaluateRequestResponse, evaluate_request_406}
use policy_manager.Api.Engine.Strict.{EngineCodec}
use policy_manager.Api.Server.Wrapper.{Binding, create_policy}
use policy_manager.Handlers.Conversions.{policy_v1_alpha1_to_server, policy_server_to_v1_alpha1}
use policy_manager.Handlers.Policies
use policy_manager.Handlers.Policies.Service.{PolicyService}
use policy_manager.Client.Responses.{Reply}
use policy_manager.Client.Responses.Parse.{parse_create_policy_response}
use policy_manager.Client.Requests.{
  Urls, Request, new_create_policy_request, new_create_policy_request_with_body, relative_path,
}
use policy_manager.Client.Requests.Calls.{apply_editors, run_editors, create_policy_with_response}
use policy_manager.Client.Laws.Shown.{CreatePolicyShows}
use policy_manager.Client.Laws.Shown.Answers.{of_create, IsParsed, written-IsParsed}
use policy_manager.Client.Laws.Served.{Network, client, create_policy_with_response-served}
use policy_manager.Client.Engine.Shown.{
  EvaluateRequestShows, evaluate_request_reply, evaluate_request_reply-Shows,
}

abbrev taken : Types.Error
taken = record {
  detail = some "The policy ID is taken";
  instance_id = none;
  status = 409;
  title = "Policy already exists";
  type = ErrorCode.already_exists;
}

abbrev taken_by_server : Server.Error
taken_by_server = record {
  detail = some "The policy ID is taken";
  instance_id = none;
  status = 409;
  title = "Policy already exists";
  type = ErrorCode.already_exists;
}

abbrev submitted : Types.Policy
submitted = record {
  create_time = none;
  description = none;
  display_name = some "p";
  enabled = none;
  id = none;
  label_selector = none;
  path = none;
  policy_type = some "GLOBAL";
  priority = none;
  rego_code = some "package p";
  update_time = none;
}

-- One text for each value that occurs.
abbrev codec : Codec
codec = record {
  encode_health = λ h. ok "{}";
  encode_policy = λ p. ok "{p}";
  encode_policy_list = λ l. ok "[]";
  encode_error = λ e. ok "{409}";
  decode_body = λ text. ok (policy_v1_alpha1_to_server submitted);
  marshal_policy = λ p. ok "{p}";
  unmarshal_health = λ text. err "no health";
  unmarshal_policy = λ text. ok submitted;
  unmarshal_policy_list = λ text. err "no list";
  unmarshal_error = λ text. ok taken;
}

written-IsParsed_example : IsParsed codec (of_create (create_policy_409 taken_by_server))
written-IsParsed_example =
    written-IsParsed codec (of_create (create_policy_409 taken_by_server)) (_, refl, refl)

-- URLs that are texts, and a network that routes every request to CreatePolicy.
abbrev urls : Urls String
urls = record {
  parse = λ s. ok s;
  parse_reference = λ u path. ok (sprintf (u ∷ path ∷ []));
  url_string = λ u. u;
  query = λ u. [];
  set_raw_query = λ q u. sprintf (u ∷ "?" ∷ q ∷ []);
  encode = λ values. "id=p1";
  parse_query = λ frag. ok (("id", "p1" ∷ []) ∷ []);
  style_string = λ name v. ok (sprintf (name ∷ "=" ∷ v ∷ []));
  style_int32 = λ name v. err "no number";
  style_path = λ name v. ok v;
  check_request = λ method url. ok tt;
}

abbrev network : Network String
network = record {
  route = λ req. create_policy;
  arrive = λ req. record { policy_id = ""; query = req.url; body = "{p}" };
}

abbrev binding : Binding String
binding = record {
  bind_string = λ name q. ok (some "p1");
  bind_int32 = λ name q. ok none;
  bind_path = λ name v. ok v;
}

-- A service that keeps the last policy.
abbrev last_policy : PolicyService (Option Types.Policy)
last_policy = record {
  compile_all = λ w. (ok tt, w);
  create_policy = λ p id w. (ok p, some p);
  get_policy = λ id w. ok submitted;
  list_policies =
      λ filter order_by token size w. ok (record { next_page_token = none; policies = [] });
  update_policy = λ id p w. (ok submitted, w);
  delete_policy = λ id w. (ok tt, none);
}

abbrev sent_request : Request
sent_request = record {
  method = "POST";
  url = "http://h/./policies?id=p1";
  header = ("Content-Type", "application/json") ∷ [];
  body = some "{p}";
}

create_policy_with_response-served_example :
    let (response, w') =
      Policies.create_policy last_policy
        (some (policy_v1_alpha1_to_server submitted))
        (some "p1")
        none in
    (rsp : Reply) × (create_policy_with_response urls codec
        (client urls codec network binding last_policy "http://h/" [] [])
        []
        (some (some "p1"))
        submitted
        none
      ≡ (parse_create_policy_response codec rsp, w'))
    × CreatePolicyShows codec response rsp
unfolding Policies.create_policy new_create_policy_request new_create_policy_request_with_body
    relative_path apply_editors run_editors policy_v1_alpha1_to_server policy_server_to_v1_alpha1
    sprintf
create_policy_with_response-served_example =
    create_policy_with_response-served urls codec network binding last_policy "http://h/" [] []
      (some "p1") submitted none sent_request (_, refl, refl) (refl, refl) refl refl

abbrev refused : Engine.Error
refused = record {
  detail = some "no";
  status = 406;
  title = "Not Acceptable";
  type = "about:blank";
}

abbrev engine_codec : EngineCodec ℕ
engine_codec = record {
  encode_response = λ r. ok "{}";
  encode_error = λ e. ok "{406}";
  decode_body = λ text. err "no request";
  unmarshal_response = λ text. err "no response";
  unmarshal_error = λ text. ok refused;
}

evaluate_request_reply-Shows_example :
    EvaluateRequestShows engine_codec
      (evaluate_request_406 refused)
      (evaluate_request_reply engine_codec (evaluate_request_406 refused))
evaluate_request_reply-Shows_example =
    evaluate_request_reply-Shows engine_codec (evaluate_request_406 refused) (_, refl, refl)
