-- ===== src/Client/Laws/Shown/Writes.antt =====
-- pkg/client/client.gen.go over internal/api/server/server.gen.go: the responses to the operations that write.
use policy_manager.Base.{refl, [], ◌∷◌}
use policy_manager.Base.Dict.{lookup, insert}
use policy_manager.Http.{write_header, received}
use policy_manager.Api.Codec.{Codec}
use policy_manager.Api.Server
use policy_manager.Api.Server.{
  create_policy_201, create_policy_400, create_policy_401, create_policy_403, create_policy_409,
  create_policy_422, create_policy_500, delete_policy_204, delete_policy_401, delete_policy_403,
  delete_policy_404, delete_policy_500, update_policy_200, update_policy_400, update_policy_401,
  update_policy_403, update_policy_404, update_policy_409, update_policy_500,
}
use policy_manager.Api.Server.Strict.{respond, visited}
use policy_manager.Api.Server.Visits.{
  visit_json, visit_create_policy, visit_delete_policy, visit_update_policy,
}
use policy_manager.Client.Responses.{is_json, header_get, store_json}
use policy_manager.Client.Responses.Parse.{
  parse_create_policy_response, parse_delete_policy_response, parse_update_policy_response,
}
use policy_manager.Client.Laws.{json_header}
use policy_manager.Client.Laws.Decoded.{
  CreatePolicyDecoded, DeletePolicyDecoded, UpdatePolicyDecoded,
}
use policy_manager.Client.Laws.Shown.{
  encoded-written, CreatePolicyShows, create_policy_reply, DeletePolicyShows, delete_policy_reply,
  UpdatePolicyShows, update_policy_reply,
}

module _ (codec : Codec) where
  pub create_policy_reply-Shows :
      (r : Server.CreatePolicyResponse)
      → CreatePolicyDecoded codec r
      → CreatePolicyShows codec r (create_policy_reply codec r)
  unfolding visit_create_policy visit_json parse_create_policy_response respond visited is_json
      header_get store_json write_header received lookup insert
  create_policy_reply-Shows (create_policy_201 location x) (text, encoded, read) =
      encoded-written (CreatePolicyShows codec (create_policy_201 location x)) 201
        (("Content-Type", "application/json") ∷ ("Location", location) ∷ []) encoded
        (refl, _, refl, rw read refl)
  create_policy_reply-Shows (create_policy_400 x) (text, encoded, read) =
      encoded-written (CreatePolicyShows codec (create_policy_400 x)) 400 json_header encoded
        (refl, _, refl, rw read refl)
  create_policy_reply-Shows (create_policy_401 x) (text, encoded, read) =
      encoded-written (CreatePolicyShows codec (create_policy_401 x)) 401 json_header encoded
        (refl, _, refl, rw read refl)
  create_policy_reply-Shows (create_policy_403 x) (text, encoded, read) =
      encoded-written (CreatePolicyShows codec (create_policy_403 x)) 403 json_header encoded
        (refl, _, refl, rw read refl)
  create_policy_reply-Shows (create_policy_409 x) (text, encoded, read) =
      encoded-written (CreatePolicyShows codec (create_policy_409 x)) 409 json_header encoded
        (refl, _, refl, rw read refl)
  create_policy_reply-Shows (create_policy_422 x) (text, encoded, read) =
      encoded-written (CreatePolicyShows codec (create_policy_422 x)) 422 json_header encoded
        (refl, _, refl, rw read refl)
  create_policy_reply-Shows (create_policy_500 x) (text, encoded, read) =
      encoded-written (CreatePolicyShows codec (create_policy_500 x)) 500 json_header encoded
        (refl, _, refl, rw read refl)

  pub delete_policy_reply-Shows :
      (r : Server.DeletePolicyResponse)
      → DeletePolicyDecoded codec r
      → DeletePolicyShows codec r (delete_policy_reply codec r)
  unfolding visit_delete_policy visit_json parse_delete_policy_response respond visited is_json
      header_get store_json write_header received lookup insert
  delete_policy_reply-Shows delete_policy_204 decoded = (refl, _, refl, refl)
  delete_policy_reply-Shows (delete_policy_401 x) (text, encoded, read) =
      encoded-written (DeletePolicyShows codec (delete_policy_401 x)) 401 json_header encoded
        (refl, _, refl, rw read refl)
  delete_policy_reply-Shows (delete_policy_403 x) (text, encoded, read) =
      encoded-written (DeletePolicyShows codec (delete_policy_403 x)) 403 json_header encoded
        (refl, _, refl, rw read refl)
  delete_policy_reply-Shows (delete_policy_404 x) (text, encoded, read) =
      encoded-written (DeletePolicyShows codec (delete_policy_404 x)) 404 json_header encoded
        (refl, _, refl, rw read refl)
  delete_policy_reply-Shows (delete_policy_500 x) (text, encoded, read) =
      encoded-written (DeletePolicyShows codec (delete_policy_500 x)) 500 json_header encoded
        (refl, _, refl, rw read refl)

  pub update_policy_reply-Shows :
      (r : Server.UpdatePolicyResponse)
      → UpdatePolicyDecoded codec r
      → UpdatePolicyShows codec r (update_policy_reply codec r)
  unfolding visit_update_policy visit_json parse_update_policy_response respond visited is_json
      header_get store_json write_header received lookup insert
  update_policy_reply-Shows (update_policy_200 x) (text, encoded, read) =
      encoded-written (UpdatePolicyShows codec (update_policy_200 x)) 200 json_header encoded
        (refl, _, refl, rw read refl)
  update_policy_reply-Shows (update_policy_400 x) (text, encoded, read) =
      encoded-written (UpdatePolicyShows codec (update_policy_400 x)) 400 json_header encoded
        (refl, _, refl, rw read refl)
  update_policy_reply-Shows (update_policy_401 x) (text, encoded, read) =
      encoded-written (UpdatePolicyShows codec (update_policy_401 x)) 401 json_header encoded
        (refl, _, refl, rw read refl)
  update_policy_reply-Shows (update_policy_403 x) (text, encoded, read) =
      encoded-written (UpdatePolicyShows codec (update_policy_403 x)) 403 json_header encoded
        (refl, _, refl, rw read refl)
  update_policy_reply-Shows (update_policy_404 x) (text, encoded, read) =
      encoded-written (UpdatePolicyShows codec (update_policy_404 x)) 404 json_header encoded
        (refl, _, refl, rw read refl)
  update_policy_reply-Shows (update_policy_409 x) (text, encoded, read) =
      encoded-written (UpdatePolicyShows codec (update_policy_409 x)) 409 json_header encoded
        (refl, _, refl, rw read refl)
  update_policy_reply-Shows (update_policy_500 x) (text, encoded, read) =
      encoded-written (UpdatePolicyShows codec (update_policy_500 x)) 500 json_header encoded
        (refl, _, refl, rw read refl)
