-- ===== src/Client/Laws/Shown/Answers.antt =====
-- pkg/client/client.gen.go over internal/api/server/server.gen.go: the six operations together.
use policy_manager.Api.Server
use policy_manager.Api.Codec.{Codec}
use policy_manager.Client.Laws.Decoded.{
  GetHealthDecoded, ListPoliciesDecoded, CreatePolicyDecoded, DeletePolicyDecoded, GetPolicyDecoded,
  UpdatePolicyDecoded,
}
use policy_manager.Client.Laws.Shown.{
  GetHealthShows, get_health_reply, ListPoliciesShows, list_policies_reply, CreatePolicyShows,
  create_policy_reply, DeletePolicyShows, delete_policy_reply, GetPolicyShows, get_policy_reply,
  UpdatePolicyShows, update_policy_reply,
}
use policy_manager.Client.Laws.Shown.Reads.{
  get_health_reply-Shows, list_policies_reply-Shows, get_policy_reply-Shows,
}
use policy_manager.Client.Laws.Shown.Writes.{
  create_policy_reply-Shows, delete_policy_reply-Shows, update_policy_reply-Shows,
}

-- A response of one of the operations.
pub data Answer : Type 0 where
  of_health : Server.GetHealthResponse → Answer
  of_list : Server.ListPoliciesResponse → Answer
  of_create : Server.CreatePolicyResponse → Answer
  of_delete : Server.DeletePolicyResponse → Answer
  of_get : Server.GetPolicyResponse → Answer
  of_update : Server.UpdatePolicyResponse → Answer

module _ (codec : Codec) where
  -- encoding/json decodes the body of the response to what was encoded.
  abbrev pub Decoded : Answer → Type 0
  Decoded (of_health r) = GetHealthDecoded codec r
  Decoded (of_list r) = ListPoliciesDecoded codec r
  Decoded (of_create r) = CreatePolicyDecoded codec r
  Decoded (of_delete r) = DeletePolicyDecoded codec r
  Decoded (of_get r) = GetPolicyDecoded codec r
  Decoded (of_update r) = UpdatePolicyDecoded codec r

  -- What the client receives has the status of the response, and is parsed to the response's body in the
  -- field of that status, all other fields being nil.
  abbrev pub IsParsed : Answer → Type 0
  IsParsed (of_health r) = GetHealthShows codec r (get_health_reply codec r)
  IsParsed (of_list r) = ListPoliciesShows codec r (list_policies_reply codec r)
  IsParsed (of_create r) = CreatePolicyShows codec r (create_policy_reply codec r)
  IsParsed (of_delete r) = DeletePolicyShows codec r (delete_policy_reply codec r)
  IsParsed (of_get r) = GetPolicyShows codec r (get_policy_reply codec r)
  IsParsed (of_update r) = UpdatePolicyShows codec r (update_policy_reply codec r)

  -- Each response that the server writes, the client parses to the same response: the status that it
  -- receives is that of the response, and of the fields for the bodies it sets the one of that status,
  -- to the body of the response, and no other. This assumes that encoding/json decodes the body to what
  -- was encoded.
  pub written-IsParsed : (r : Answer) → Decoded r → IsParsed r
  written-IsParsed (of_health r) decoded = get_health_reply-Shows codec r decoded
  written-IsParsed (of_list r) decoded = list_policies_reply-Shows codec r decoded
  written-IsParsed (of_create r) decoded = create_policy_reply-Shows codec r decoded
  written-IsParsed (of_delete r) decoded = delete_policy_reply-Shows codec r decoded
  written-IsParsed (of_get r) decoded = get_policy_reply-Shows codec r decoded
  written-IsParsed (of_update r) decoded = update_policy_reply-Shows codec r decoded
