-- ===== src/Service/Constraints/Validate/Sound.antt =====
-- What a patch that passes `ValidatePatch` of internal/service/constraints.go satisfies.
use policy_manager.Base.{
  ◌≡◌, refl, sym, subst, ◌∙◌, String, Option, none, some, List, [], ◌∷◌, ◌++◌, Result, ok, err,
}
use policy_manager.Base.Dict.{lookup}
use policy_manager.Json.{
  Value, null, bool, float64, int, number, str, arr, obj, Object, empty, field,
}
use policy_manager.Json.Go.{Go}
use policy_manager.Service.Constraints.Context.{ConstraintContext}
use policy_manager.Service.Constraints.Validate.{
  JsonSchema, Scan, get_or_compile_schema, add_violation, judged, validate_compiled, check_field,
  join_path, validate_patch_recursive, validate_nested, validate_patch,
}
use policy_manager.Service.Constraints.Validate.Compiled.{
  some_injective, CompiledFrom, IsCache, IsCompilation, get_or_compile-IsCompilation,
}

append-single : {A : Type 0} (xs : List A) (y : A) → xs ++ (y ∷ []) ≡ [] → ⊥
append-single [] y h = cc
append-single (x ∷ xs) y h = cc

module _ {F C S : Type 0} (js : JsonSchema F C S) (go : Go F) (c : ConstraintContext F) where
  -- A value meets the constraint of its path, if there is one: a schema compiled from it accepts it.
  abbrev pub Meets : String → Value F → Type 0
  Meets path value =
      (m : Object F)
      → lookup path c.constrained_fields_by_field_path ≡ some m
      → (s : S) × CompiledFrom js path m s × (js.validate s value ≡ none)

  -- A step of the scan keeps the cache right, and adds no violation only if `P` holds.
  abbrev IsScan : Type 0 → Scan C S → Scan C S → Type 0
  IsScan P st st' = IsCache js go c st' × (st'.violations ≡ [] → (st.violations ≡ []) × P)

  -- `v` is the verdict of the schema.
  verdict-IsScan :
      (path : String) (value : Value F) (m : Object F) (s : S) (st st' : Scan C S)
      (v : Option String)
      → js.validate s value ≡ v
      → IsCompilation js go c path m st (ok s, st')
      → IsScan
          ((s : S) × CompiledFrom js path m s × (js.validate s value ≡ none))
          st
          (judged js go c path value st' v)
  unfolding judged add_violation
  verdict-IsScan path value m s st st' none accepted (same, cache, from) =
      (cache, λ h. (sym same ∙ h, (s, from s refl, accepted)))
  verdict-IsScan path value m s st st' (some e) violated (same, cache, from) =
      (cache, λ h. absurd (append-single st'.violations _ h))

  validate_compiled-IsScan :
      (path : String) (value : Value F) (m : Object F) (st : Scan C S)
      (r : Result String S × Scan C S)
      → IsCompilation js go c path m st r
      → IsScan
          ((s : S) × CompiledFrom js path m s × (js.validate s value ≡ none))
          st
          (validate_compiled js go c path value r)
  unfolding validate_compiled add_violation
  validate_compiled-IsScan path value m st (err e, st') (same, cache, from) =
      (cache, λ h. absurd (append-single st'.violations _ h))
  validate_compiled-IsScan path value m st (ok s, st') compiled =
      verdict-IsScan path value m s st st' (js.validate s value) refl compiled

  check_field-IsScan :
      (path : String) (value : Value F) (o : Option (Object F)) (st : Scan C S)
      → lookup path c.constrained_fields_by_field_path ≡ o
      → IsCache js go c st
      → IsScan (Meets path value) st (check_field js go c path value o st)
  unfolding check_field get_or_compile_schema
  check_field-IsScan path value none st found cache = (cache, λ h. (h, λ m constrained. cc))
  check_field-IsScan path value (some n) st found cache =
      let (cache', passed) = validate_compiled-IsScan path value n st _ (
        get_or_compile-IsCompilation js go c path n (lookup path st.compiled) st found refl
          cache) in
      (
        cache',
        λ h.
            let (before, met) = passed h in
            (
              before,
              λ m constrained.
                  subst (λ o. (s : S) × CompiledFrom js path o s × (js.validate s value ≡ none))
                    (some_injective (sym found ∙ constrained)) met,
            ),
      )

  unfoldable mutual
    -- `P` holds of each field of a map, those of nested maps included, with its path.
    pub EachField : (String → Value F → Type 0) → Object F → String → Type 0
    EachField P empty prefix = Unit
    EachField P (field key value rest) prefix =
        P (join_path js go c prefix key) value
        × EachNested P value (join_path js go c prefix key)
        × EachField P rest prefix

    pub EachNested : (String → Value F → Type 0) → Value F → String → Type 0
    EachNested P null path = Unit
    EachNested P (bool b) path = Unit
    EachNested P (float64 x) path = Unit
    EachNested P (int z) path = Unit
    EachNested P (number s) path = Unit
    EachNested P (str s) path = Unit
    EachNested P (arr xs) path = Unit
    EachNested P (obj m) path = EachField P m path

  passed_over : (st : Scan C S) → IsCache js go c st → IsScan Unit st st
  passed_over st cache = (cache, λ h. (h, tt))

  mutual
    unfolding validate_patch_recursive EachField

    validate_patch_recursive-IsScan :
        (patch : Object F) (prefix : String) (st : Scan C S)
        → IsCache js go c st
        → IsScan
            (EachField Meets patch prefix)
            st
            (validate_patch_recursive js go c patch prefix st)
    validate_patch_recursive-IsScan empty prefix st cache = passed_over st cache
    validate_patch_recursive-IsScan (field key value rest) prefix st cache =
        let path = join_path js go c prefix key in
        let st1 =
          check_field js go c path value (lookup path c.constrained_fields_by_field_path) st in
        let (cache1, passed1) =
          check_field-IsScan path value (lookup path c.constrained_fields_by_field_path) st refl
            cache in
        let (cache2, passed2) = validate_nested-IsScan value path st1 cache1 in
        let (cache3, passed3) =
          validate_patch_recursive-IsScan rest prefix (validate_nested js go c value path st1)
            cache2 in
        (
          cache3,
          λ h.
              let (h2, later) = passed3 h in
              let (h1, nested) = passed2 h2 in
              let (h0, met) = passed1 h1 in (h0, (met, nested, later)),
        )

    validate_nested-IsScan :
        (value : Value F) (path : String) (st : Scan C S)
        → IsCache js go c st
        → IsScan (EachNested Meets value path) st (validate_nested js go c value path st)
    validate_nested-IsScan null path st cache = passed_over st cache
    validate_nested-IsScan (bool b) path st cache = passed_over st cache
    validate_nested-IsScan (float64 x) path st cache = passed_over st cache
    validate_nested-IsScan (int z) path st cache = passed_over st cache
    validate_nested-IsScan (number s) path st cache = passed_over st cache
    validate_nested-IsScan (str s) path st cache = passed_over st cache
    validate_nested-IsScan (arr xs) path st cache = passed_over st cache
    validate_nested-IsScan (obj m) path st cache = validate_patch_recursive-IsScan m path st cache

  -- A patch without a violation meets the constraints: each of its fields, those of nested maps
  -- included, whose path has a constraint is accepted by a schema that the compiler made from the
  -- constraint of that very path, whichever fields share the compiler and its cache.
  pub validate_patch-EachField :
      (patch : Object F) → validate_patch js go c patch ≡ [] → EachField Meets patch ""
  unfolding validate_patch lookup
  validate_patch-EachField patch h =
      let (cache, passed) =
        validate_patch_recursive-IsScan patch ""
          (record { violations = []; compiler = js.new_compiler; compiled = [] })
          (λ path s m kept constrained. cc) in
      (passed h).1
