-- ===== src/Client/Laws/Decoded.antt =====
-- pkg/client/client.gen.go over internal/api/server/server.gen.go: what encoding/json is to do for a
-- response, which is to encode its body, and in the client to decode that to the body again.
use policy_manager.Api.Server
use policy_manager.Api.Server.{
  get_health_200, list_policies_200, list_policies_400, list_policies_401, list_policies_403,
  list_policies_500, create_policy_201, create_policy_400, create_policy_401, create_policy_403,
  create_policy_409, create_policy_422, create_policy_500, delete_policy_204, delete_policy_401,
  delete_policy_403, delete_policy_404, delete_policy_500, get_policy_200, get_policy_401,
  get_policy_403, get_policy_404, get_policy_500, update_policy_200, update_policy_400,
  update_policy_401, update_policy_403, update_policy_404, update_policy_409, update_policy_500,
}
use policy_manager.Api.Codec.{Codec}
use policy_manager.Handlers.Conversions.{policy_server_to_v1_alpha1}
use policy_manager.Client.Laws.{IsRead, received_error, received_list, received_health}

module _ (codec : Codec) where
  abbrev pub GetHealthDecoded : Server.GetHealthResponse → Type 0
  GetHealthDecoded (get_health_200 x) =
      IsRead (codec.encode_health x) codec.unmarshal_health (received_health x)

  abbrev pub ListPoliciesDecoded : Server.ListPoliciesResponse → Type 0
  ListPoliciesDecoded (list_policies_200 x) =
      IsRead (codec.encode_policy_list x) codec.unmarshal_policy_list (received_list x)
  ListPoliciesDecoded (list_policies_400 x) =
      IsRead (codec.encode_error x) codec.unmarshal_error (received_error x)
  ListPoliciesDecoded (list_policies_401 x) =
      IsRead (codec.encode_error x) codec.unmarshal_error (received_error x)
  ListPoliciesDecoded (list_policies_403 x) =
      IsRead (codec.encode_error x) codec.unmarshal_error (received_error x)
  ListPoliciesDecoded (list_policies_500 x) =
      IsRead (codec.encode_error x) codec.unmarshal_error (received_error x)

  abbrev pub CreatePolicyDecoded : Server.CreatePolicyResponse → Type 0
  CreatePolicyDecoded (create_policy_201 location x) =
      IsRead (codec.encode_policy x) codec.unmarshal_policy (policy_server_to_v1_alpha1 x)
  CreatePolicyDecoded (create_policy_400 x) =
      IsRead (codec.encode_error x) codec.unmarshal_error (received_error x)
  CreatePolicyDecoded (create_policy_401 x) =
      IsRead (codec.encode_error x) codec.unmarshal_error (received_error x)
  CreatePolicyDecoded (create_policy_403 x) =
      IsRead (codec.encode_error x) codec.unmarshal_error (received_error x)
  CreatePolicyDecoded (create_policy_409 x) =
      IsRead (codec.encode_error x) codec.unmarshal_error (received_error x)
  CreatePolicyDecoded (create_policy_422 x) =
      IsRead (codec.encode_error x) codec.unmarshal_error (received_error x)
  CreatePolicyDecoded (create_policy_500 x) =
      IsRead (codec.encode_error x) codec.unmarshal_error (received_error x)

  abbrev pub DeletePolicyDecoded : Server.DeletePolicyResponse → Type 0
  DeletePolicyDecoded delete_policy_204 = Unit
  DeletePolicyDecoded (delete_policy_401 x) =
      IsRead (codec.encode_error x) codec.unmarshal_error (received_error x)
  DeletePolicyDecoded (delete_policy_403 x) =
      IsRead (codec.encode_error x) codec.unmarshal_error (received_error x)
  DeletePolicyDecoded (delete_policy_404 x) =
      IsRead (codec.encode_error x) codec.unmarshal_error (received_error x)
  DeletePolicyDecoded (delete_policy_500 x) =
      IsRead (codec.encode_error x) codec.unmarshal_error (received_error x)

  abbrev pub GetPolicyDecoded : Server.GetPolicyResponse → Type 0
  GetPolicyDecoded (get_policy_200 x) =
      IsRead (codec.encode_policy x) codec.unmarshal_policy (policy_server_to_v1_alpha1 x)
  GetPolicyDecoded (get_policy_401 x) =
      IsRead (codec.encode_error x) codec.unmarshal_error (received_error x)
  GetPolicyDecoded (get_policy_403 x) =
      IsRead (codec.encode_error x) codec.unmarshal_error (received_error x)
  GetPolicyDecoded (get_policy_404 x) =
      IsRead (codec.encode_error x) codec.unmarshal_error (received_error x)
  GetPolicyDecoded (get_policy_500 x) =
      IsRead (codec.encode_error x) codec.unmarshal_error (received_error x)

  abbrev pub UpdatePolicyDecoded : Server.UpdatePolicyResponse → Type 0
  UpdatePolicyDecoded (update_policy_200 x) =
      IsRead (codec.encode_policy x) codec.unmarshal_policy (policy_server_to_v1_alpha1 x)
  UpdatePolicyDecoded (update_policy_400 x) =
      IsRead (codec.encode_error x) codec.unmarshal_error (received_error x)
  UpdatePolicyDecoded (update_policy_401 x) =
      IsRead (codec.encode_error x) codec.unmarshal_error (received_error x)
  UpdatePolicyDecoded (update_policy_403 x) =
      IsRead (codec.encode_error x) codec.unmarshal_error (received_error x)
  UpdatePolicyDecoded (update_policy_404 x) =
      IsRead (codec.encode_error x) codec.unmarshal_error (received_error x)
  UpdatePolicyDecoded (update_policy_409 x) =
      IsRead (codec.encode_error x) codec.unmarshal_error (received_error x)
  UpdatePolicyDecoded (update_policy_500 x) =
      IsRead (codec.encode_error x) codec.unmarshal_error (received_error x)
