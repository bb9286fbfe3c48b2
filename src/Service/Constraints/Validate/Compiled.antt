-- ===== src/Service/Constraints/Validate/Compiled.antt =====
-- The schemas that `getOrCompileSchema` of internal/service/constraints.go keeps.
use policy_manager.Base.{
  ◌≡◌, refl, sym, ap, subst, ◌∙◌, Bool-cases, inl, inr, String, Option, none, some, ◌==◌, eq_iff,
  Result, ok, err, >>=-eq-ok, if◌then◌else◌,
}
use policy_manager.Base.Dict.{Dict, lookup, insert, lookup-insert}
use policy_manager.Json.{Value, Object}
use policy_manager.Json.Go.{Go}
use policy_manager.Service.Constraints.Context.{ConstraintContext}
use policy_manager.Service.Constraints.Validate.{
  JsonSchema, uri_of, Scan, prefixed, after_compile, after_add, schema_value, compile_value,
  store_compiled, get_or_compile,
}

prefixed-ok :
    {A : Type 0} (message : String) (r : Result String A) (a : A)
    → prefixed message r ≡ ok a
    → r ≡ ok a
prefixed-ok message (err e) a h = cc
prefixed-ok message (ok b) a h = cc

pub some_injective : {A : Type 0} {a b : A} → some a ≡ some b → a ≡ b
some_injective h = cc

ok_some : {A : Type 0} {a b : A} → ◌≡◌ {A = Result String A} (ok a) (ok b) → some a ≡ some b
ok_some h = cc

module _ {F C S : Type 0} (js : JsonSchema F C S) where
  -- The schema comes from the bytes of the map, added to a compiler under the path's URI.
  pub record CompiledFrom (path : String) (m : Object F) (s : S) : Type 0 where
    pub bytes : String
    pub schema : Value F
    pub before : C
    pub after : C
    pub final : C
    pub marshalled : js.marshal_schema m ≡ ok bytes
    pub parsed : js.unmarshal_schema bytes ≡ ok schema
    pub added : js.add_resource (uri_of path) schema before ≡ ok after
    pub compiled : js.compile (uri_of path) after ≡ ok (s, final)

  after_compile-ok :
      (c : C) (r : Result String (S × C)) (s : S)
      → (after_compile js c r).0 ≡ ok s
      → (c' : C) × (r ≡ ok (s, c'))
  unfolding after_compile
  after_compile-ok c (err e) s h = cc
  after_compile-ok c (ok (t, c')) s h = (c', cc)

  after_add-ok :
      (uri : String) (c : C) (r : Result String C) (s : S)
      → (after_add js uri c r).0 ≡ ok s
      → (after : C) × (final : C) × (r ≡ ok after) × (js.compile uri after ≡ ok (s, final))
  unfolding after_add
  after_add-ok uri c (err e) s h = cc
  after_add-ok uri c (ok c') s h =
      let (final, e) = after_compile-ok c' (js.compile uri c') s h in (c', final, refl, e)

  compile_value-CompiledFrom :
      (path : String) (c : C) (m : Object F) (v : Result String (Value F)) (s : S)
      → ((schema : Value F)
          → v ≡ ok schema
          → (bytes : String) × (js.marshal_schema m ≡ ok bytes)
            × (js.unmarshal_schema bytes ≡ ok schema))
      → (compile_value js path c v).0 ≡ ok s
      → CompiledFrom path m s
  unfolding compile_value
  compile_value-CompiledFrom path c m (err e) s read h = cc
  compile_value-CompiledFrom path c m (ok schema) s read h =
      let (bytes, marshalled, parsed) = read schema refl in
      let (after, final, added, compiled) =
        after_add-ok (uri_of path) c (js.add_resource (uri_of path) schema c) s h in
      record {
        bytes = bytes;
        schema = schema;
        before = c;
        after = after;
        final = final;
        marshalled = marshalled;
        parsed = parsed;
        added = added;
        compiled = compiled;
      }

  schema_value-ok :
      (m : Object F) (schema : Value F)
      → schema_value js m ≡ ok schema
      → (bytes : String) × (js.marshal_schema m ≡ ok bytes)
        × (js.unmarshal_schema bytes ≡ ok schema)
  unfolding schema_value
  schema_value-ok m schema h =
      let (bytes, marshalled, h1) =
        >>=-eq-ok (prefixed "failed to marshal schema: " (js.marshal_schema m)) _ h in
      (
        bytes,
        prefixed-ok _ (js.marshal_schema m) bytes marshalled,
        prefixed-ok _ (js.unmarshal_schema bytes) schema h1,
      )

  module _ (go : Go F) (c : ConstraintContext F) where
    -- Each schema that is kept was compiled from the constraint of its path.
    abbrev pub IsCache : Scan C S → Type 0
    IsCache st =
        (path : String) (s : S) (m : Object F)
        → lookup path st.compiled ≡ some s
        → lookup path c.constrained_fields_by_field_path ≡ some m
        → CompiledFrom path m s

    -- What looking up or compiling a schema leaves.
    abbrev pub IsCompilation : String → Object F → Scan C S → Result String S × Scan C S → Type 0
    IsCompilation path m st (r, st') =
        (st'.violations ≡ st.violations)
        × IsCache st'
        × ((s : S) → r ≡ ok s → CompiledFrom path m s)

    kept_from :
        (path p : String) (m n : Object F) (t s : S) (d : Dict S)
        → lookup path c.constrained_fields_by_field_path ≡ some m
        → lookup p c.constrained_fields_by_field_path ≡ some n
        → CompiledFrom path m t
        → (lookup p d ≡ some s → CompiledFrom p n s)
        → lookup p (insert path t d) ≡ some s
        → CompiledFrom p n s
    kept_from path p m n t s d found constrained from cache kept =
        let k : (if path == p then some t else lookup p d) ≡ some s =
          sym (lookup-insert p path t d) ∙ kept in
        elim (Bool-cases (path == p)) [
          | inl e ↦
              let same = (eq_iff path p).0 e in
              let same_map : m ≡ n = some_injective (
                sym found
                ∙ ap (λ q. lookup q c.constrained_fields_by_field_path) same
                ∙ constrained) in
              let same_schema : t ≡ s = some_injective (rw e at k) in
              subst (λ q. CompiledFrom q n s) same
                (subst (λ o. CompiledFrom path o s) same_map
                  (subst (λ u. CompiledFrom path m u) same_schema from))
          | inr e ↦ cache (rw e at k)
        ]

    store_compiled-IsCompilation :
        (path : String) (m : Object F) (st : Scan C S) (r : Result String S × C)
        → lookup path c.constrained_fields_by_field_path ≡ some m
        → IsCache st
        → ((s : S) → r.0 ≡ ok s → CompiledFrom path m s)
        → IsCompilation path m st (store_compiled js path st r)
    unfolding store_compiled
    store_compiled-IsCompilation path m st (err e, k) found cache from =
        (refl, cache, λ s h. from s h)
    store_compiled-IsCompilation path m st (ok t, k) found cache from = (
      refl,
      λ p s n kept constrained.
          kept_from path p m n t s st.compiled found constrained (from t refl)
            (λ h. cache p s n h constrained) kept,
      λ s h. from s h,
    )

    pub get_or_compile-IsCompilation :
        (path : String) (m : Object F) (o : Option S) (st : Scan C S)
        → lookup path c.constrained_fields_by_field_path ≡ some m
        → lookup path st.compiled ≡ o
        → IsCache st
        → IsCompilation path m st (get_or_compile js path m o st)
    unfolding get_or_compile
    get_or_compile-IsCompilation path m (some t) st found kept cache =
        (refl, cache, λ s h. cache path s m (kept ∙ ok_some h) found)
    get_or_compile-IsCompilation path m none st found kept cache =
        store_compiled-IsCompilation path m st _ found cache (λ s h.
          compile_value-CompiledFrom path st.compiler m (schema_value js m) s (schema_value-ok m) h)
