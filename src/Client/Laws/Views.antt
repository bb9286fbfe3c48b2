-- ===== src/Client/Laws/Views.antt =====
-- pkg/client/client.gen.go over internal/api/server/server.gen.go: the client's view of each response.
use policy_manager.Base.{String, none, some}
use policy_manager.Api.Server
use policy_manager.Api.Server.{
  get_health_200, list_policies_200, list_policies_400, list_policies_401, list_policies_403,
  list_policies_500, create_policy_201, create_policy_400, create_policy_401, create_policy_403,
  create_policy_409, create_policy_422, create_policy_500, delete_policy_204, delete_policy_401,
  delete_policy_403, delete_policy_404, delete_policy_500, get_policy_200, get_policy_401,
  get_policy_403, get_policy_404, get_policy_500, update_policy_200, update_policy_400,
  update_policy_401, update_policy_403, update_policy_404, update_policy_409, update_policy_500,
}
use policy_manager.Handlers.Conversions.{policy_server_to_v1_alpha1}
use policy_manager.Client.Responses
use policy_manager.Client.Responses.{Reply}
use policy_manager.Client.Laws.{received_error, received_list, received_health}

abbrev pub blank_get_health : String → Reply → Responses.GetHealthResponse
blank_get_health body rsp = record { body = body; http_response = rsp; json200 = none }

-- What a response tells the client: its body, in the field of its status.
abbrev pub get_health_view :
    Server.GetHealthResponse → Responses.GetHealthResponse → Responses.GetHealthResponse
get_health_view (get_health_200 x) c = record c { json200 = some (received_health x) }

abbrev pub blank_list_policies : String → Reply → Responses.ListPoliciesResponse
blank_list_policies body rsp = record {
  body = body;
  http_response = rsp;
  json200 = none;
  json400 = none;
  json401 = none;
  json403 = none;
  json500 = none;
}

-- What a response tells the client: its body, in the field of its status.
abbrev pub list_policies_view :
    Server.ListPoliciesResponse → Responses.ListPoliciesResponse → Responses.ListPoliciesResponse
list_policies_view (list_policies_200 x) c = record c { json200 = some (received_list x) }
list_policies_view (list_policies_400 x) c = record c { json400 = some (received_error x) }
list_policies_view (list_policies_401 x) c = record c { json401 = some (received_error x) }
list_policies_view (list_policies_403 x) c = record c { json403 = some (received_error x) }
list_policies_view (list_policies_500 x) c = record c { json500 = some (received_error x) }

abbrev pub blank_create_policy : String → Reply → Responses.CreatePolicyResponse
blank_create_policy body rsp = record {
  body = body;
  http_response = rsp;
  json201 = none;
  json400 = none;
  json401 = none;
  json403 = none;
  json409 = none;
  json422 = none;
  json500 = none;
}

-- What a response tells the client: its body, in the field of its status.
abbrev pub create_policy_view :
    Server.CreatePolicyResponse → Responses.CreatePolicyResponse → Responses.CreatePolicyResponse
create_policy_view (create_policy_201 location x) c = record c {
  json201 = some (policy_server_to_v1_alpha1 x);
}
create_policy_view (create_policy_400 x) c = record c { json400 = some (received_error x) }
create_policy_view (create_policy_401 x) c = record c { json401 = some (received_error x) }
create_policy_view (create_policy_403 x) c = record c { json403 = some (received_error x) }
create_policy_view (create_policy_409 x) c = record c { json409 = some (received_error x) }
create_policy_view (create_policy_422 x) c = record c { json422 = some (received_error x) }
create_policy_view (create_policy_500 x) c = record c { json500 = some (received_error x) }

abbrev pub blank_delete_policy : String → Reply → Responses.DeletePolicyResponse
blank_delete_policy body rsp = record {
  body = body;
  http_response = rsp;
  json401 = none;
  json403 = none;
  json404 = none;
  json500 = none;
}

-- What a response tells the client: its body, in the field of its status.
abbrev pub delete_policy_view :
    Server.DeletePolicyResponse → Responses.DeletePolicyResponse → Responses.DeletePolicyResponse
delete_policy_view delete_policy_204 c = c
delete_policy_view (delete_policy_401 x) c = record c { json401 = some (received_error x) }
delete_policy_view (delete_policy_403 x) c = record c { json403 = some (received_error x) }
delete_policy_view (delete_policy_404 x) c = record c { json404 = some (received_error x) }
delete_policy_view (delete_policy_500 x) c = record c { json500 = some (received_error x) }

abbrev pub blank_get_policy : String → Reply → Responses.GetPolicyResponse
blank_get_policy body rsp = record {
  body = body;
  http_response = rsp;
  json200 = none;
  json401 = none;
  json403 = none;
  json404 = none;
  json500 = none;
}

-- What a response tells the client: its body, in the field of its status.
abbrev pub get_policy_view :
    Server.GetPolicyResponse → Responses.GetPolicyResponse → Responses.GetPolicyResponse
get_policy_view (get_policy_200 x) c = record c { json200 = some (policy_server_to_v1_alpha1 x) }
get_policy_view (get_policy_401 x) c = record c { json401 = some (received_error x) }
get_policy_view (get_policy_403 x) c = record c { json403 = some (received_error x) }
get_policy_view (get_policy_404 x) c = record c { json404 = some (received_error x) }
get_policy_view (get_policy_500 x) c = record c { json500 = some (received_error x) }

abbrev pub blank_update_policy : String → Reply → Responses.UpdatePolicyResponse
blank_update_policy body rsp = record {
  body = body;
  http_response = rsp;
  json200 = none;
  json400 = none;
  json401 = none;
  json403 = none;
  json404 = none;
  json409 = none;
  json500 = none;
}

-- What a response tells the client: its body, in the field of its status.
abbrev pub update_policy_view :
    Server.UpdatePolicyResponse → Responses.UpdatePolicyResponse → Responses.UpdatePolicyResponse
update_policy_view (update_policy_200 x) c = record c {
  json200 = some (policy_server_to_v1_alpha1 x);
}
update_policy_view (update_policy_400 x) c = record c { json400 = some (received_error x) }
update_policy_view (update_policy_401 x) c = record c { json401 = some (received_error x) }
update_policy_view (update_policy_403 x) c = record c { json403 = some (received_error x) }
update_policy_view (update_policy_404 x) c = record c { json404 = some (received_error x) }
update_policy_view (update_policy_409 x) c = record c { json409 = some (received_error x) }
update_policy_view (update_policy_500 x) c = record c { json500 = some (received_error x) }
