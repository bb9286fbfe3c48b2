-- ===== src/Http.antt =====
-- net/http as the generated code of the API uses it: a response writer, and what is received of it.
use Prim.Native.String
use Prim.Native.String.append
use policy_manager.Base.{ℕ, ◌≡◌, ap, String, Option, none, some, [], ◌∷◌, Result, ok, err}
use policy_manager.Base.Text.{sprintf}
use policy_manager.Base.Dict.{Dict, insert}

-- http.ResponseWriter: `sent` is the status with the headers at the time of WriteHeader.
pub record Writer : Type 0 where
  pub header : Dict String
  pub sent : Option (ℕ × Dict String)
  pub body : String

abbrev pub new_writer : Writer
new_writer = record { header = []; sent = none; body = "" }

-- `w.Header().Set`
abbrev pub set_header : String → String → Writer → Writer
set_header k v w = record w { header = insert k v w.header }

sent_first : Option (ℕ × Dict String) → ℕ × Dict String → Option (ℕ × Dict String)
sent_first none h = some h
sent_first (some first) h = some first

-- `w.WriteHeader`: a second call has no effect.
unfoldable pub write_header : ℕ → Writer → Writer
unfolding sent_first
write_header status w = record w { sent = sent_first w.sent (status, w.header) }

-- `w.Write`, which sends the status 200 if none has been sent.
unfoldable pub write : String → Writer → Writer
unfolding write_header
write text w = let v = write_header 200 w in record v { body = String.◌++◌ w.body text }

-- `http.Error`
unfoldable pub http_error : String → ℕ → Writer → Writer
unfolding write_header write
http_error message status w = write (sprintf (message ∷ "\n" ∷ [])) (
    write_header status (
      set_header "X-Content-Type-Options" "nosniff"
        (set_header "Content-Type" "text/plain; charset=utf-8" w)))

-- `json.NewEncoder(w).Encode`, from the encoding: a value that cannot be encoded writes nothing.
unfoldable pub encode_to : Result String String → Writer → Result String (Unit {0}) × Writer
unfolding write
encode_to (err e) w = (err e, w)
encode_to (ok text) w = (ok tt, write (sprintf (text ∷ "\n" ∷ [])) w)

-- What a client receives.
pub record HttpResponse : Type 0 where
  pub status_code : ℕ
  pub header : Dict String
  pub body : String

received_with : Option (ℕ × Dict String) → Writer → HttpResponse
received_with none w = record { status_code = 200; header = w.header; body = w.body }
received_with (some (status, header)) w = record {
  status_code = status;
  header = header;
  body = w.body;
}

unfoldable pub received : Writer → HttpResponse
unfolding received_with
received w = received_with w.sent w

-- A response with one header and a body, as `write_header` and `encode_to` leave it.
pub received-encode_to :
    (status : ℕ) (header : Dict String) (text : String)
    → received
        (encode_to
          (ok text)
          (write_header status (record { header = header; sent = none; body = "" }))).1
      ≡ record { status_code = status; header = header; body = sprintf (text ∷ "\n" ∷ []) }
unfolding received encode_to write_header
received-encode_to status header text =
    ap (λ t. record { status_code = status; header = header; body = t })
      (append.nil (sprintf (text ∷ "\n" ∷ [])))
