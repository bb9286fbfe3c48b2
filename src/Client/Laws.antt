-- ===== src/Client/Laws.antt =====
-- pkg/client/client.gen.go over internal/api/server/server.gen.go: what the client makes of a response
-- that the server writes.
pub mod Views
pub mod Decoded
pub mod Shown
pub mod Served
use Prim.Native.String.append
use policy_manager.Base.{
  ℕ, ◌≡◌, refl, ap, String, Option, none, some, Result, ok, err, [], ◌∷◌, map,
}
use policy_manager.Base.Text.{sprintf}
use policy_manager.Base.Dict.{Dict, insert}
use policy_manager.Http.{
  Writer, new_writer, set_header, write_header, write, encode_to, HttpResponse, received,
  received-encode_to,
}
use policy_manager.Api.Types
use policy_manager.Api.Server
use policy_manager.Api.Codec.{Codec}
use policy_manager.Api.Server.Visits.{visit_json}
use policy_manager.Api.Server.Strict.{visited}
use policy_manager.Handlers.Conversions.{policy_server_to_v1_alpha1}
use policy_manager.Client.Responses.{Reply, reply}

-- The client's types of what the server encodes.
abbrev pub received_error : Server.Error → Types.Error
received_error e = record {
  detail = e.detail;
  instance_id = e.instance_id;
  status = e.status;
  title = e.title;
  type = e.type;
}

abbrev pub received_list : Server.PolicyList → Types.PolicyList
received_list l = record {
  next_page_token = l.next_page_token;
  policies = map policy_server_to_v1_alpha1 l.policies;
}

abbrev pub received_health : Server.Health → Types.Health
received_health h = record { path = h.path; status = h.status }

-- An encoding that the client decodes to `a`.
abbrev pub IsRead {ℓ} :
    {A : Type ℓ} → Result String String → (String → Result String A) → A → Type ℓ
IsRead encoded unmarshal a =
    (text : String) × (encoded ≡ ok text) × (unmarshal (sprintf (text ∷ "\n" ∷ [])) ≡ ok a)

-- A response of this status and headers whose body is an encoding.
abbrev pub encoded_reply : ℕ → Dict String → String → Reply
encoded_reply status header text = record {
  status_code = status;
  header = header;
  body = ok (sprintf (text ∷ "\n" ∷ []));
}

abbrev pub json_header : Dict String
json_header = ("Content-Type", "application/json") ∷ []

-- The response that a handler without an error leaves.
pub respond-encode_to :
    (status : ℕ) (header : Dict String) {encoded : Result String String} {text : String}
    → encoded ≡ ok text
    → reply (
        received (
          visited (
            encode_to encoded
              (write_header status (record { header = header; sent = none; body = "" })))))
      ≡ encoded_reply status header text
unfolding visited encode_to
respond-encode_to status header h = rw h (ap reply (received-encode_to status header _))
