-- ===== src/Service/Constraints/Copy.antt =====
-- `deepCopySchemaMap` and its fallback. A `map[string]any` is a value here, so a copy is the value; a
-- nil map is the empty one.
use policy_manager.Base.{◌≡◌, refl, ap, String, Result, ok, err}
use policy_manager.Json.{Value, obj, arr, Items, nil, cons, Object, empty, field}
use policy_manager.Json.Go.{Go, Copies}

module _ {F : Type 0} where
  unfoldable mutual
    pub deep_copy_schema_value : Value F → Value F
    deep_copy_schema_value (obj val) = obj (deep_copy_schema_map_recursive val)
    deep_copy_schema_value (arr val) = arr (deep_copy_schema_items val)
    deep_copy_schema_value v = v

    pub deep_copy_schema_items : Items F → Items F
    deep_copy_schema_items nil = nil
    deep_copy_schema_items (cons item rest) =
        cons (deep_copy_schema_value item) (deep_copy_schema_items rest)

    pub deep_copy_schema_map_recursive : Object F → Object F
    deep_copy_schema_map_recursive empty = empty
    deep_copy_schema_map_recursive (field k v rest) =
        field k (deep_copy_schema_value v) (deep_copy_schema_map_recursive rest)

  copied_or : Object F → Result String (Object F) → Object F
  copied_or m (ok copied) = copied
  copied_or m (err e) = deep_copy_schema_map_recursive m

  unfoldable pub deep_copy_schema_map : Go F → Object F → Object F
  unfolding copied_or
  deep_copy_schema_map go m = copied_or m (go.deep_copy m)

  mutual
    unfolding deep_copy_schema_value

    deep_copy_schema_value_lem : (v : Value F) → deep_copy_schema_value v ≡ v
    deep_copy_schema_value_lem (obj val) = ap obj (deep_copy_schema_map_recursive_lem val)
    deep_copy_schema_value_lem (arr val) = ap arr (deep_copy_schema_items_lem val)
    deep_copy_schema_value_lem v = refl

    deep_copy_schema_items_lem : (vs : Items F) → deep_copy_schema_items vs ≡ vs
    deep_copy_schema_items_lem nil = refl
    deep_copy_schema_items_lem (cons item rest) =
        cc (deep_copy_schema_value_lem item, deep_copy_schema_items_lem rest)

    deep_copy_schema_map_recursive_lem : (o : Object F) → deep_copy_schema_map_recursive o ≡ o
    deep_copy_schema_map_recursive_lem empty = refl
    deep_copy_schema_map_recursive_lem (field k v rest) =
        cc (deep_copy_schema_value_lem v, deep_copy_schema_map_recursive_lem rest)

  -- The fallback yields the map that it is given.
  pub deep_copy_schema_map_fallback :
      (go : Go F) (o : Object F) {e : String}
      → go.deep_copy o ≡ err e
      → deep_copy_schema_map go o ≡ o
  unfolding deep_copy_schema_map
  deep_copy_schema_map_fallback go o h = rw h (deep_copy_schema_map_recursive_lem o)

  pub deep_copy_schema_map_lem :
      (go : Go F) (o : Object F) → Copies go → deep_copy_schema_map go o ≡ o
  unfolding deep_copy_schema_map
  deep_copy_schema_map_lem go o c = rw c.copy
