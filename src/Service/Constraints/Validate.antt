-- ===== src/Service/Constraints/Validate.antt =====
-- `ValidatePatch`, `validatePatchRecursive` and `getOrCompileSchema`. The compiler and the validator are
-- those of santhosh-tekuri/jsonschema.
pub mod Compiled
pub mod Sound
use Prim.Native.Char.{code}
use Prim.Native.String
use policy_manager.Base.{
  String, Option, none, some, List, [], ◌∷◌, ◌++◌, ◌==◌, eqb, Result, ok, err, ◌>>=◌, map_err,
  if◌then◌else◌,
}
use policy_manager.Base.Dict.{Dict, lookup, insert}
use policy_manager.Base.Text.{sprintf}
use policy_manager.Json.{Value, obj, Object, empty, field}
use policy_manager.Json.Go.{Go}
use policy_manager.Service.Errors.{ConstraintViolation}
use policy_manager.Service.Constraints.Context.{ConstraintContext, text_at}

-- `C` is the type of the compilers, `S` that of the compiled schemas. An operation on a compiler
-- returns the compiler that it leaves.
pub record JsonSchema (F C S : Type 0) : Type 0 where
  pub new_compiler : C
  -- json.Marshal of a schema, then jsonschema.UnmarshalJSON of its bytes
  pub marshal_schema : Object F → Result String String
  pub unmarshal_schema : String → Result String (Value F)
  pub add_resource : String → Value F → C → Result String C
  pub compile : String → C → Result String (S × C)
  -- `none` accepts the value; else the text of the error
  pub validate : S → Value F → Option String

-- `strings.ReplaceAll(s, ".", "_")`
unfoldable pub replace_dots : String → String
replace_dots String.[] = ""
replace_dots (String.◌∷◌ c s) =
    let rest = replace_dots s in
    if eqb (code c) b'.' then String.◌++◌ "_" rest else String.◌∷◌ c rest

abbrev pub uri_of : String → String
uri_of field_path = String.◌++◌ "file:///constraint/" (replace_dots field_path)

-- What one call of `ValidatePatch` has gathered.
pub record Scan (C S : Type 0) : Type 0 where
  pub violations : List ConstraintViolation
  pub compiler : C
  pub compiled : Dict S

abbrev prefixed : {A : Type 0} → String → Result String A → Result String A
prefixed message r = map_err (λ e. sprintf (message ∷ e ∷ [])) r

module _ {F C S : Type 0} (js : JsonSchema F C S) where
  after_compile : C → Result String (S × C) → Result String S × C
  after_compile c (err e) = (err (sprintf ("failed to compile schema: " ∷ e ∷ [])), c)
  after_compile c (ok (s, c')) = (ok s, c')

  after_add : String → C → Result String C → Result String S × C
  unfolding after_compile
  after_add uri c (err e) = (err (sprintf ("failed to add schema resource: " ∷ e ∷ [])), c)
  after_add uri c (ok c') = after_compile c' (js.compile uri c')

  schema_value : Object F → Result String (Value F)
  schema_value schema_map = do
    bytes ← prefixed "failed to marshal schema: " (js.marshal_schema schema_map)
    prefixed "failed to parse schema: " (js.unmarshal_schema bytes)

  compile_value : String → C → Result String (Value F) → Result String S × C
  unfolding after_add
  compile_value field_path c (err e) = (err e, c)
  compile_value field_path c (ok schema) =
      after_add (uri_of field_path) c (js.add_resource (uri_of field_path) schema c)

  store_compiled : String → Scan C S → Result String S × C → Result String S × Scan C S
  store_compiled field_path st (err e, c) = (err e, record st { compiler = c })
  store_compiled field_path st (ok s, c) =
      (ok s, record st { compiler = c; compiled = insert field_path s st.compiled })

  pub get_or_compile : String → Object F → Option S → Scan C S → Result String S × Scan C S
  unfolding store_compiled compile_value schema_value
  get_or_compile field_path schema_map (some s) st = (ok s, st)
  get_or_compile field_path schema_map none st =
      store_compiled field_path st (compile_value field_path st.compiler (schema_value schema_map))

  get_or_compile_schema : String → Object F → Scan C S → Result String S × Scan C S
  unfolding get_or_compile
  get_or_compile_schema field_path schema_map st =
      get_or_compile field_path schema_map (lookup field_path st.compiled) st

  module _ (go : Go F) (c : ConstraintContext F) where
    add_violation : String → String → Scan C S → Scan C S
    add_violation field_path reason st = record st {
      violations =
          st.violations
          ++ record {
            field_path = field_path;
            reason = reason;
            set_by_policy = text_at field_path c.policy_id_by_field_path;
          }
            ∷ [];
    }

    judged : String → Value F → Scan C S → Option String → Scan C S
    unfolding add_violation
    judged field_path value st none = st
    judged field_path value st (some e) =
        add_violation field_path
          (sprintf ("value " ∷ go.sprint value ∷ " violates constraint: " ∷ e ∷ [])) st

    validate_compiled : String → Value F → Result String S × Scan C S → Scan C S
    unfolding add_violation judged
    validate_compiled field_path value (err e, st) = add_violation field_path e st
    validate_compiled field_path value (ok s, st) = judged field_path value st (js.validate s value)

    check_field : String → Value F → Option (Object F) → Scan C S → Scan C S
    unfolding validate_compiled get_or_compile_schema
    check_field field_path value none st = st
    check_field field_path value (some schema_map) st =
        validate_compiled field_path value (get_or_compile_schema field_path schema_map st)

    abbrev join_path : String → String → String
    join_path prefix key = if prefix == "" then key else sprintf (prefix ∷ "." ∷ key ∷ [])

    mutual
      validate_patch_recursive : Object F → String → Scan C S → Scan C S
      validate_patch_recursive empty prefix st = st
      validate_patch_recursive (field key value rest) prefix st =
          let field_path = join_path prefix key in
          validate_patch_recursive rest prefix (
            validate_nested value field_path (
              check_field field_path value (lookup field_path c.constrained_fields_by_field_path)
                st))

      validate_nested : Value F → String → Scan C S → Scan C S
      validate_nested (obj nested_map) field_path st =
          validate_patch_recursive nested_map field_path st
      validate_nested value field_path st = st

    unfoldable pub validate_patch : Object F → List ConstraintViolation
    unfolding validate_patch_recursive check_field
    validate_patch patch =
        (validate_patch_recursive patch ""
          (record { violations = []; compiler = js.new_compiler; compiled = [] })).violations
