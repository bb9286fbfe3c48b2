-- ===== src/Examples/Setup.antt =====
-- Float64 values that are natural numbers, and small versions of the libraries that the program calls.
use policy_manager.Base.{
  ℕ, ◌%◌, ◌≡◌, refl, Bool, true, false, String, Option, none, some, List, [], ◌∷◌, ◌==◌, ltb, leb,
  eqb, arith, ok, if◌then◌else◌,
}
use policy_manager.Base.Int.{pos_part}
use policy_manager.Base.Dict.{Dict}
use policy_manager.Json.{Value, str, obj, nil, cons, arr, empty, field, number}
use policy_manager.Json.Go.{Go, Copies}
use policy_manager.Service.Constraints.Values.{to_float64}
use policy_manager.Service.Constraints.Keywords.{
  Kind, lower_kind, upper_kind, kind_of, is_lower, is_upper,
}
use policy_manager.Service.Constraints.Keywords.Names.{IsLowerBound-kind_of, IsUpperBound-kind_of}
use policy_manager.Service.Constraints.Keywords.Meaning.{Meaning}
use policy_manager.Service.Constraints.Validate.{JsonSchema}
use policy_manager.Opa.Engine.{Rego}

abbrev marshal_text : Value ℕ → Option String
marshal_text (str s) = some s
marshal_text (number s) = some s
marshal_text _ = none

abbrev pub go : Go ℕ
go = record {
  lt = ltb;
  fmax = λ a b. if ltb a b then b else a;
  fmin = λ a b. if ltb a b then a else b;
  fmod = λ a b. a % b;
  is_zero = λ a. eqb a 0;
  of_int = pos_part;
  parse_float = λ s. if s == "10" then some 10 else if s == "20" then some 20 else none;
  marshal = marshal_text;
  sprint = λ v. "?";
  match_string = λ p s. ok (p == s);
  deep_copy = λ o. ok o;
  deep_equal = λ a b. false;
}

pub go-Copies : Copies go
go-Copies = record { copy = λ o. refl }

-- Bounds are read as bounds; every other keyword accepts every value.
abbrev meets : Kind → Option ℕ → Option ℕ → Bool
meets lower_kind (some a) (some c) = leb a c
meets upper_kind (some a) (some c) = leb c a
meets _ _ _ = true

abbrev pub holds : String → Value ℕ → Value ℕ → Bool
holds k x v = meets (kind_of k) (to_float64 go x) (to_float64 go v)

pub meets-lower :
    (a b : ℕ) (c : Option ℕ)
    → ltb b a ≡ false
    → meets lower_kind (some b) c ≡ true
    → meets lower_kind (some a) c ≡ true
meets-lower a b none n h = refl
meets-lower a b (some c) n h = ground arith

pub meets-upper :
    (a b : ℕ) (c : Option ℕ)
    → ltb a b ≡ false
    → meets upper_kind (some b) c ≡ true
    → meets upper_kind (some a) c ≡ true
meets-upper a b none n h = refl
meets-upper a b (some c) n h = ground arith

pub max_keeps : (a b : ℕ) → ltb b a ≡ false → ltb (if ltb a b then b else a) a ≡ false
max_keeps a b n = ground arith

pub min_keeps : (a b : ℕ) → ltb a b ≡ false → ltb a (if ltb a b then a else b) ≡ false
min_keeps a b n = ground arith

-- Every natural number is a float64 value here.
abbrev pub exact : Value ℕ → Bool
exact x = true

unfoldable pub go-Meaning : Meaning go holds
unfolding to_float64 kind_of is_lower is_upper
go-Meaning = record {
  is_exact = exact;
  exact_float = λ a. refl;
  exact_items = λ xs. refl;
  lower = λ k x v a b bound whole ex n h.
      rw (IsLowerBound-kind_of bound, ex)
        (meets-lower a b (to_float64 go v) n (rw (IsLowerBound-kind_of bound) at h));
  upper = λ k x v a b bound whole ex n h.
      rw (IsUpperBound-kind_of bound, ex)
        (meets-upper a b (to_float64 go v) n (rw (IsUpperBound-kind_of bound) at h));
  enum = λ xs ys v w h. refl;
  multiple = λ x v a b whole ex z h. refl;
  all_of = λ xs x v h. refl;
  max_le = max_keeps;
  min_le = min_keeps;
}

-- A validator that accepts every value, and texts as schemas' bytes.
abbrev pub js : JsonSchema ℕ (List String) ℕ
js = record {
  new_compiler = [];
  marshal_schema = λ o. ok "{}";
  unmarshal_schema = λ s. ok (str s);
  add_resource = λ uri v c. ok (uri ∷ c);
  compile = λ uri c. ok (0, c);
  validate = λ s v. none;
}

-- A policy whose code is the name of a provider selects it, and allows that provider alone.
abbrev decision_of : String → Value ℕ
decision_of p = obj (
    field "selected_provider" (str p) (
      field "service_provider_constraints" (obj (field "allow_list" (arr (cons (str p) nil)) empty))
        empty))

abbrev pub rego : Rego ℕ (Dict String) String
rego = record {
  compile_modules = λ sources. ok sources;
  package_path = λ sources id. id;
  prepare = λ query sources. ok query;
  eval = λ query input. ok ((decision_of query ∷ []) ∷ []);
  parse_module = λ code. ok tt;
}
