-- ===== src/Api/Codec.antt =====
-- encoding/json at the types of the API. The server encodes its own types; the client decodes those of
-- api/v1alpha1, which have the same JSON.
use policy_manager.Base.{String, Result}
use policy_manager.Api.Types
use policy_manager.Api.Server

pub record Codec : Type 0 where
  -- json.NewEncoder(w).Encode, the text before its newline
  pub encode_health : Server.Health → Result String String
  pub encode_policy : Server.Policy → Result String String
  pub encode_policy_list : Server.PolicyList → Result String String
  pub encode_error : Server.Error → Result String String
  -- json.NewDecoder(r.Body).Decode
  pub decode_body : String → Result String Server.Policy
  -- json.Marshal and json.Unmarshal in the client
  pub marshal_policy : Types.Policy → Result String String
  pub unmarshal_health : String → Result String Types.Health
  pub unmarshal_policy : String → Result String Types.Policy
  pub unmarshal_policy_list : String → Result String Types.PolicyList
  pub unmarshal_error : String → Result String Types.Error
