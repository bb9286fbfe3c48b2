-- ===== src/Client/Responses.antt =====
-- pkg/client/client.gen.go: the responses of each operation, and the cases of their parsers.
pub mod Parse
use policy_manager.Base.{ℕ, ◌&&◌, eqb, Bool, String, Option, none, some, Result, ok, err}
use policy_manager.Base.Text.{contains_text}
use policy_manager.Base.Dict.{Dict, lookup}
use policy_manager.Http.{HttpResponse}
use policy_manager.Api.Types

-- *http.Response; to read the body may fail.
pub record Reply : Type 0 where
  pub status_code : ℕ
  pub header : Dict String
  pub body : Result String String

-- A response that is read whole.
abbrev pub reply : HttpResponse → Reply
reply r = record { status_code = r.status_code; header = r.header; body = ok r.body }

text_or_empty : Option String → String
text_or_empty none = ""
text_or_empty (some v) = v

-- `rsp.Header.Get`
unfoldable pub header_get : String → Reply → String
unfolding text_or_empty
header_get k rsp = text_or_empty (lookup k rsp.header)

-- The condition of a case for the status `n`.
unfoldable pub is_json : Reply → ℕ → Bool
is_json rsp n = contains_text (header_get "Content-Type" rsp) "json" && eqb rsp.status_code n

-- The body of a case.
unfoldable pub store_json : {A R : Type 0} → (A → R) → Result String A → Result String R
store_json set (err e) = err e
store_json set (ok dest) = ok (set dest)

pub record GetHealthResponse : Type 0 where
  pub body : String
  pub http_response : Reply
  pub json200 : Option Types.Health

pub record ListPoliciesResponse : Type 0 where
  pub body : String
  pub http_response : Reply
  pub json200 : Option Types.PolicyList
  pub json400 : Option Types.Error
  pub json401 : Option Types.Error
  pub json403 : Option Types.Error
  pub json500 : Option Types.Error

pub record CreatePolicyResponse : Type 0 where
  pub body : String
  pub http_response : Reply
  pub json201 : Option Types.Policy
  pub json400 : Option Types.Error
  pub json401 : Option Types.Error
  pub json403 : Option Types.Error
  pub json409 : Option Types.Error
  pub json422 : Option Types.Error
  pub json500 : Option Types.Error

pub record DeletePolicyResponse : Type 0 where
  pub body : String
  pub http_response : Reply
  pub json401 : Option Types.Error
  pub json403 : Option Types.Error
  pub json404 : Option Types.Error
  pub json500 : Option Types.Error

pub record GetPolicyResponse : Type 0 where
  pub body : String
  pub http_response : Reply
  pub json200 : Option Types.Policy
  pub json401 : Option Types.Error
  pub json403 : Option Types.Error
  pub json404 : Option Types.Error
  pub json500 : Option Types.Error

pub record UpdatePolicyResponse : Type 0 where
  pub body : String
  pub http_response : Reply
  pub json200 : Option Types.Policy
  pub json400 : Option Types.Error
  pub json401 : Option Types.Error
  pub json403 : Option Types.Error
  pub json404 : Option Types.Error
  pub json409 : Option Types.Error
  pub json500 : Option Types.Error
