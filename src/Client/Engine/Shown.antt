-- ===== src/Client/Engine/Shown.antt =====
-- pkg/engineclient/client.gen.go over internal/api/engine/server.gen.go: the client parses what the
-- engine's server writes.
use policy_manager.Base.{refl, some, ok}
use policy_manager.Base.Dict.{lookup, insert}
use policy_manager.Api.Server.Strict.{visited as server_visited}
use policy_manager.Http.{encode_to, new_writer, write_header, received}
use policy_manager.Api.Engine
use policy_manager.Api.Engine.{
  evaluate_request_200, evaluate_request_400, evaluate_request_401, evaluate_request_403,
  evaluate_request_406, evaluate_request_409, evaluate_request_500,
}
use policy_manager.Api.Engine.Strict.{
  EngineCodec, visit_json, visit_evaluate_request, respond, visited,
}
use policy_manager.Handlers.Evaluation.Statuses.{status}
use policy_manager.Client.Responses.{Reply, reply, is_json, header_get, store_json}
use policy_manager.Client.Laws.{IsRead, json_header}
use policy_manager.Client.Laws.Shown.{Shows, encoded-written}
use policy_manager.Client.Engine.{
  EvaluateRequestResponse, blank_evaluate_request, parse_evaluate_request_response,
}

module _ {F : Type 0} where
  -- What a response tells the client: its body, in the field of its status.
  abbrev pub evaluate_request_view :
      Engine.EvaluateRequestResponse F → EvaluateRequestResponse F → EvaluateRequestResponse F
  evaluate_request_view (evaluate_request_200 x) c = record c { json200 = some x }
  evaluate_request_view (evaluate_request_400 x) c = record c { json400 = some x }
  evaluate_request_view (evaluate_request_401 x) c = record c { json401 = some x }
  evaluate_request_view (evaluate_request_403 x) c = record c { json403 = some x }
  evaluate_request_view (evaluate_request_406 x) c = record c { json406 = some x }
  evaluate_request_view (evaluate_request_409 x) c = record c { json409 = some x }
  evaluate_request_view (evaluate_request_500 x) c = record c { json500 = some x }

module _ {F : Type 0} (codec : EngineCodec F) where
  -- The body of the response is encoded, and decoded to what it was.
  abbrev pub IsReadBack : Engine.EvaluateRequestResponse F → Type 0
  IsReadBack (evaluate_request_200 x) = IsRead (codec.encode_response x) codec.unmarshal_response x
  IsReadBack (evaluate_request_400 x) = IsRead (codec.encode_error x) codec.unmarshal_error x
  IsReadBack (evaluate_request_401 x) = IsRead (codec.encode_error x) codec.unmarshal_error x
  IsReadBack (evaluate_request_403 x) = IsRead (codec.encode_error x) codec.unmarshal_error x
  IsReadBack (evaluate_request_406 x) = IsRead (codec.encode_error x) codec.unmarshal_error x
  IsReadBack (evaluate_request_409 x) = IsRead (codec.encode_error x) codec.unmarshal_error x
  IsReadBack (evaluate_request_500 x) = IsRead (codec.encode_error x) codec.unmarshal_error x

  abbrev pub evaluate_request_reply : Engine.EvaluateRequestResponse F → Reply
  evaluate_request_reply r = reply (received (respond codec (ok r) new_writer))

  abbrev pub EvaluateRequestShows : Engine.EvaluateRequestResponse F → Reply → Type 0
  EvaluateRequestShows =
      Shows status (parse_evaluate_request_response codec) blank_evaluate_request
        evaluate_request_view

  -- The client of the engine API reads, from what the server writes for a response of the evaluation
  -- handler, the status of the response, and its body into the field of that status, where encoding/json
  -- decodes the body to what was encoded.
  pub evaluate_request_reply-Shows :
      (r : Engine.EvaluateRequestResponse F)
      → IsReadBack r
      → EvaluateRequestShows r (evaluate_request_reply r)
  unfolding visit_evaluate_request visit_json parse_evaluate_request_response respond visited status
      is_json header_get store_json write_header received lookup insert encode_to server_visited
  evaluate_request_reply-Shows (evaluate_request_200 x) (text, encoded, read) =
      encoded-written (EvaluateRequestShows (evaluate_request_200 x)) 200 json_header encoded
        (refl, _, refl, rw read refl)
  evaluate_request_reply-Shows (evaluate_request_400 x) (text, encoded, read) =
      encoded-written (EvaluateRequestShows (evaluate_request_400 x)) 400 json_header encoded
        (refl, _, refl, rw read refl)
  evaluate_request_reply-Shows (evaluate_request_401 x) (text, encoded, read) =
      encoded-written (EvaluateRequestShows (evaluate_request_401 x)) 401 json_header encoded
        (refl, _, refl, rw read refl)
  evaluate_request_reply-Shows (evaluate_request_403 x) (text, encoded, read) =
      encoded-written (EvaluateRequestShows (evaluate_request_403 x)) 403 json_header encoded
        (refl, _, refl, rw read refl)
  evaluate_request_reply-Shows (evaluate_request_406 x) (text, encoded, read) =
      encoded-written (EvaluateRequestShows (evaluate_request_406 x)) 406 json_header encoded
        (refl, _, refl, rw read refl)
  evaluate_request_reply-Shows (evaluate_request_409 x) (text, encoded, read) =
      encoded-written (EvaluateRequestShows (evaluate_request_409 x)) 409 json_header encoded
        (refl, _, refl, rw read refl)
  evaluate_request_reply-Shows (evaluate_request_500 x) (text, encoded, read) =
      encoded-written (EvaluateRequestShows (evaluate_request_500 x)) 500 json_header encoded
        (refl, _, refl, rw read refl)
