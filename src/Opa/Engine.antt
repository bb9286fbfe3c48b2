-- ===== src/Opa/Engine.antt =====
-- internal/opa/engine.go and internal/opa/errors.go: the compiled queries, one for each policy. The
-- Rego compiler and evaluator are those of open-policy-agent/opa.
pub mod Laws
use Prim.Native.String
use text.Mathlib.Text.{starts_with}
use policy_manager.Base.{
  Bool, true, false, String, Option, none, some, List, [], ◌∷◌, ◌==◌, Result, ok, err, ◌>>=◌,
  map_err, if◌then◌else◌,
}
use policy_manager.Base.Dict.{Dict, lookup, insert}
use policy_manager.Base.Text.{sprintf, trim_space}
use policy_manager.Json.{Value, null, bool, float64, int, number, str, arr, obj, Object, empty}
use policy_manager.Opa.Decision.{EvaluationResult}

-- `K` is the type of OPA's compilers, `Q` that of its prepared queries.
pub record Rego (F K Q : Type 0) : Type 0 where
  -- ast.CompileModulesWithOpt over the modules, keyed by policy
  pub compile_modules : Dict String → Result String K
  -- `compiler.Modules[id].Package.Path.String()`
  pub package_path : K → String → String
  -- rego.New(rego.Query(q), rego.Compiler(c)).PrepareForEval
  pub prepare : String → K → Result String Q
  -- the values of the expressions of each result
  pub eval : Q → Object F → Result String (List (List (Value F)))
  -- ast.ParseModuleWithOpts
  pub parse_module : String → Result String (Unit {0})

pub record PolicyModule : Type 0 where
  pub id : String
  pub rego_code : String

-- ErrInvalidRego and ErrEngineInternal with the text that wraps them, and any other error.
pub data EngineError : Type 0 where
  invalid_rego engine_internal other_error : String → EngineError

-- `(error).Error` of these.
unfoldable pub engine_error_text : EngineError → String
engine_error_text (invalid_rego e) = sprintf ("invalid Rego code: " ∷ e ∷ [])
engine_error_text (engine_internal e) = sprintf ("policy engine internal error: " ∷ e ∷ [])
engine_error_text (other_error e) = e

-- A nil map of queries is the empty one.
pub record EmbeddedEngine (Q : Type 0) : Type 0 where
  pub queries : Dict Q

unfoldable pub new_engine : {Q : Type 0} → EmbeddedEngine Q
new_engine = record { queries = [] }

unfoldable pub sources_of : List PolicyModule → Dict String → Dict String
sources_of [] sources = sources
sources_of (p ∷ policies) sources = sources_of policies (insert p.id p.rego_code sources)

-- `strings.TrimPrefix(s, prefix)`, at the characters.
abbrev drop_prefix : String → String → Option String
drop_prefix String.[] s = some s
drop_prefix (String.◌∷◌ c p) String.[] = none
drop_prefix (String.◌∷◌ c p) (String.◌∷◌ d s) =
    let rest = drop_prefix p s in if String.◌∷◌ c "" == String.◌∷◌ d "" then rest else none

trim_prefix : String → String → String
trim_prefix p s = elim (drop_prefix p s) [ none ↦ s | some rest ↦ rest ]

module _ {F K Q : Type 0} (rego : Rego F K Q) where
  query_of : K → String → String
  unfolding trim_prefix
  query_of compiler id =
      sprintf ("data." ∷ trim_prefix "data." (rego.package_path compiler id) ∷ ".main" ∷ [])

  -- The loop that prepares one query for each policy.
  prepare_all : K → List PolicyModule → Dict Q → Result EngineError (Dict Q)
  unfolding query_of
  prepare_all compiler [] new_queries = ok new_queries
  prepare_all compiler (p ∷ policies) new_queries =
      map_err
        (λ e.
          invalid_rego (sprintf ("failed to prepare query for policy '" ∷ p.id ∷ "': " ∷ e ∷ [])))
        (rego.prepare (query_of compiler p.id) compiler)
      >>= λ pq. prepare_all compiler policies (insert p.id pq new_queries)

  compiled_queries : List PolicyModule → Result EngineError (Dict Q)
  unfolding prepare_all
  compiled_queries [] = ok []
  compiled_queries (p ∷ policies) = do
    compiler ← map_err invalid_rego (rego.compile_modules (sources_of (p ∷ policies) []))
    prepare_all compiler (p ∷ policies) []

  swap :
      EmbeddedEngine Q
      → Result EngineError (Dict Q)
      → Result EngineError (Unit {0}) × EmbeddedEngine Q
  swap e (ok new_queries) = (ok tt, record { queries = new_queries })
  swap e (err x) = (err x, e)

  -- `Compile`: the error, if any, and the engine that the call leaves.
  unfoldable pub compile :
      List PolicyModule → EmbeddedEngine Q → Result EngineError (Unit {0}) × EmbeddedEngine Q
  unfolding compiled_queries swap
  compile policies e = swap e (compiled_queries policies)

  -- The `%T` of a value that is no object.
  type_text : Value F → String
  type_text (bool b) = "bool"
  type_text (float64 x) = "float64"
  type_text (int n) = "int"
  type_text (number n) = "json.Number"
  type_text (str s) = "string"
  type_text (arr xs) = "[]interface {}"
  type_text v = "map[string]interface {}"

  undefined : EvaluationResult F
  undefined = record { result = empty; defined = false }

  result_of : Value F → Result EngineError (EvaluationResult F)
  unfolding undefined type_text
  result_of null = ok undefined
  result_of (obj result) = ok (record { result = result; defined = true })
  result_of v = err (
      engine_internal (sprintf ("policy main rule must return an object; got " ∷ type_text v ∷ [])))

  first_value : List (List (Value F)) → Result EngineError (EvaluationResult F)
  unfolding result_of
  first_value [] = ok undefined
  first_value ([] ∷ rs) = ok undefined
  first_value ((val ∷ vals) ∷ rs) = result_of val

  evaluate_query : String → Option Q → Object F → Result EngineError (EvaluationResult F)
  unfolding first_value
  evaluate_query policy_id none input = ok undefined
  evaluate_query policy_id (some pq) input = do
    rs ←
        map_err
          (λ e.
            other_error (sprintf ("evaluation error for policy '" ∷ policy_id ∷ "': " ∷ e ∷ [])))
          (rego.eval pq input)
    first_value rs

  unfoldable pub evaluate_policy :
      EmbeddedEngine Q → String → Object F → Result EngineError (EvaluationResult F)
  unfolding evaluate_query
  evaluate_policy e policy_id input = evaluate_query policy_id (lookup policy_id e.queries) input

  unfoldable pub validate_rego : String → Result EngineError (Unit {0})
  validate_rego rego_code =
      if trim_space rego_code == ""
      then err (invalid_rego "empty Rego code")
      else map_err invalid_rego (rego.parse_module rego_code)
