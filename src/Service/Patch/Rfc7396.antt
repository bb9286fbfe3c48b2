-- ===== src/Service/Patch/Rfc7396.antt =====
-- RFC 7396, which `mergePatch` of internal/service/evaluation.go is to implement.
pub mod Equal
use policy_manager.Base.{Bool, true, false, not, ◌&&◌, String, Option, none, some, is_some}
use policy_manager.Json.{Value, null, obj, Object, empty, field, get, put, delete, nested_object}

module _ {F : Type 0} where
  -- "If Target is not an Object: Target = {}"
  abbrev pub target_object : Option (Object F) → Object F
  target_object none = empty
  target_object (some t) = t

  -- The MergePatch of RFC 7396 of an object patch, member by member.
  unfoldable mutual
    pub rfc7396 : Object F → Object F → Object F
    rfc7396 empty target = target
    rfc7396 (field name v rest) target = rfc7396 rest (rfc_member v name target)

    rfc_member : Value F → String → Object F → Object F
    rfc_member null name target = delete name target
    rfc_member (obj p) name target =
        put name (obj (rfc7396 p (target_object (nested_object (get name target))))) target
    rfc_member v name target = put name v target

  -- An object without nulls in it, in which no name stands twice, at any depth of objects.
  unfoldable mutual
    pub is_plain : Object F → Bool
    is_plain empty = true
    is_plain (field name v rest) =
        is_plain_value v && not (is_some (get name rest)) && is_plain rest

    is_plain_value : Value F → Bool
    is_plain_value null = false
    is_plain_value (obj p) = is_plain p
    is_plain_value v = true

  -- No name of the patch stands twice, and its objects have no nulls where the target has no object.
  unfoldable mutual
    pub is_mergeable : Object F → Object F → Bool
    is_mergeable empty target = true
    is_mergeable (field name v rest) target =
        is_mergeable_value v (nested_object (get name target))
        && not (is_some (get name rest))
        && is_mergeable rest target

    is_mergeable_value : Value F → Option (Object F) → Bool
    is_mergeable_value (obj p) none = is_plain p
    is_mergeable_value (obj p) (some b) = is_mergeable p b
    is_mergeable_value v target = true
