-- ===== src/Client/Laws/Shown.antt =====
-- pkg/client/client.gen.go over internal/api/server/server.gen.go: what it is that the client parses
-- what the server writes.
pub mod Reads
pub mod Writes
pub mod Answers
use policy_manager.Base.{ℕ, ◌≡◌, sym, subst, String, none, ok, Result}
use policy_manager.Base.Dict.{Dict}
use policy_manager.Http.{Writer, new_writer, write_header, encode_to, received}
use policy_manager.Api.Codec.{Codec}
use policy_manager.Api.Server
use policy_manager.Api.Server.Strict.{respond, visited}
use policy_manager.Api.Server.Visits.{
  visit_get_health, visit_list_policies, visit_create_policy, visit_delete_policy, visit_get_policy,
  visit_update_policy,
}
use policy_manager.Handlers.Errors.Laws.{
  create_answer, list_answer, get_answer, delete_answer, update_answer,
}
use policy_manager.Client.Responses.{Reply, reply}
use policy_manager.Client.Responses.Parse.{
  parse_get_health_response, parse_list_policies_response, parse_create_policy_response,
  parse_delete_policy_response, parse_get_policy_response, parse_update_policy_response,
}
use policy_manager.Client.Laws.{encoded_reply, respond-encode_to}
use policy_manager.Client.Laws.Views.{
  blank_get_health, blank_list_policies, blank_create_policy, blank_delete_policy, blank_get_policy,
  blank_update_policy, get_health_view, list_policies_view, create_policy_view, delete_policy_view,
  get_policy_view, update_policy_view,
}

-- The client reads the status of the response, and its body into the field of that status.
abbrev pub Shows :
    {R C : Type 0}
    → (R → ℕ)
    → (Reply → Result String C)
    → (String → Reply → C)
    → (R → C → C)
    → R
    → Reply
    → Type 0
Shows status parse blank view r rsp =
    (rsp.status_code ≡ status r)
    × (body : String) × (rsp.body ≡ ok body)
    × (parse rsp ≡ ok (view r (blank body rsp)))

-- What the strict handler writes for a response, as the client receives it.
abbrev pub written : {R : Type 0} → (R → Writer → Result String (Unit {0}) × Writer) → R → Reply
written visit r = reply (received (respond visit (ok r) new_writer))

pub encoded-written :
    (P : Reply → Type 0) {encoded : Result String String} {text : String} (status : ℕ)
    (header : Dict String)
    → encoded ≡ ok text
    → P (encoded_reply status header text)
    → P (
        reply (
          received (
            visited (
              encode_to encoded
                (write_header status (record { header = header; sent = none; body = "" }))))))
encoded-written P status header h = subst P (sym (respond-encode_to status header h))

module _ (codec : Codec) where
  abbrev pub GetHealthShows : Server.GetHealthResponse → Reply → Type 0
  GetHealthShows =
      Shows (λ r. 200) (parse_get_health_response codec) blank_get_health get_health_view

  abbrev pub get_health_reply : Server.GetHealthResponse → Reply
  get_health_reply r = written (visit_get_health codec) r

  abbrev pub ListPoliciesShows : Server.ListPoliciesResponse → Reply → Type 0
  ListPoliciesShows =
      Shows (λ r. (list_answer r).0) (parse_list_policies_response codec) blank_list_policies
        list_policies_view

  abbrev pub list_policies_reply : Server.ListPoliciesResponse → Reply
  list_policies_reply r = written (visit_list_policies codec) r

  abbrev pub CreatePolicyShows : Server.CreatePolicyResponse → Reply → Type 0
  CreatePolicyShows =
      Shows (λ r. (create_answer r).0) (parse_create_policy_response codec) blank_create_policy
        create_policy_view

  abbrev pub create_policy_reply : Server.CreatePolicyResponse → Reply
  create_policy_reply r = written (visit_create_policy codec) r

  abbrev pub DeletePolicyShows : Server.DeletePolicyResponse → Reply → Type 0
  DeletePolicyShows =
      Shows (λ r. (delete_answer r).0) (parse_delete_policy_response codec) blank_delete_policy
        delete_policy_view

  abbrev pub delete_policy_reply : Server.DeletePolicyResponse → Reply
  delete_policy_reply r = written (visit_delete_policy codec) r

  abbrev pub GetPolicyShows : Server.GetPolicyResponse → Reply → Type 0
  GetPolicyShows =
      Shows (λ r. (get_answer r).0) (parse_get_policy_response codec) blank_get_policy
        get_policy_view

  abbrev pub get_policy_reply : Server.GetPolicyResponse → Reply
  get_policy_reply r = written (visit_get_policy codec) r

  abbrev pub UpdatePolicyShows : Server.UpdatePolicyResponse → Reply → Type 0
  UpdatePolicyShows =
      Shows (λ r. (update_answer r).0) (parse_update_policy_response codec) blank_update_policy
        update_policy_view

  abbrev pub update_policy_reply : Server.UpdatePolicyResponse → Reply
  update_policy_reply r = written (visit_update_policy codec) r
