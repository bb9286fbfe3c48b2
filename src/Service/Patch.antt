-- ===== src/Service/Patch.antt =====
-- `mergePatch` of internal/service/evaluation.go
pub mod Laws
pub mod Rfc7396
use policy_manager.Base.{String, Option, none, some, Result, ok, ◌>>=◌}
use policy_manager.Json.{Value, null, obj, Object, empty, field, get, put, delete, nested_object}
use policy_manager.Json.Go.{Go}

module _ {F : Type 0} (go : Go F) where
  -- An object of the patch at a key: merged into an object of the base, else set as it stands.
  set_nested :
      Option (Object F)
      → (Object F → Result String (Object F))
      → String
      → Object F
      → Object F
      → Result String (Object F)
  set_nested (some base_map) merge key patch_map result = do
    copy ← go.deep_copy base_map
    merged ← merge copy
    ok (put key (obj merged) result)
  set_nested none merge key patch_map result = ok (put key (obj patch_map) result)

  -- The loop over the patch, and one round of it.
  mutual
    merge_fields : Object F → Object F → Result String (Object F)
    merge_fields empty result = ok result
    merge_fields (field key patch_value rest) result =
        merge_value patch_value key result >>= λ r. merge_fields rest r

    merge_value : Value F → String → Object F → Result String (Object F)
    merge_value null key result = ok (delete key result)
    merge_value (obj patch_map) key result =
        set_nested (nested_object (get key result)) (λ b. merge_fields patch_map b) key patch_map
          result
    merge_value patch_value key result = ok (put key patch_value result)

  unfoldable pub merge_patch : Object F → Object F → Result String (Object F)
  unfolding merge_fields set_nested
  merge_patch base patch = go.deep_copy base >>= λ result. merge_fields patch result
