-- ===== src/Service/Constraints/Keywords.antt =====
-- `mergeSchemaKeywords` of internal/service/constraints.go.
pub mod Names
pub mod Meaning
pub mod Bounds
pub mod Tightening
pub mod Refusal
use policy_manager.Base.{
  Bool, true, false, not, ◌&&◌, ◌||◌, String, Option, none, some, List, [], ◌∷◌, ◌==◌, Result, ok,
  err, ◌>>=◌, if◌then◌else◌,
}
use policy_manager.Base.Text.{sprintf}
use policy_manager.Json.{
  Value, float64, int, number, str, arr, obj, Items, nil, cons, Object, empty, field, get, put,
  snoc, as_items, as_string,
}
use policy_manager.Json.Go.{Go}
use policy_manager.Service.Constraints.Copy.{deep_copy_schema_map}
use policy_manager.Service.Constraints.Values.{to_float64, json_values_equal, intersect_any_slices}

pub record ConstraintConflictError : Type 0 where
  pub field_path : String
  pub set_by_policy : String
  pub reason : String

-- The cases of the `switch`. The bodies of "exclusiveMinimum" and "exclusiveMaximum" repeat those of
-- the other bounds.
pub data Kind : Type 0 where
  const_kind enum_kind lower_kind upper_kind pattern_kind multiple_of_kind other_kind : Kind

unfoldable pub is_lower : String → Bool
is_lower k =
    k == "minimum"
    || k == "minLength"
    || k == "minItems"
    || k == "minProperties"
    || k == "exclusiveMinimum"

unfoldable pub is_upper : String → Bool
is_upper k =
    k == "maximum"
    || k == "maxLength"
    || k == "maxItems"
    || k == "maxProperties"
    || k == "exclusiveMaximum"

unfoldable pub kind_of : String → Kind
kind_of k =
    if k == "const"
    then const_kind
    else if k == "enum"
    then enum_kind
    else if is_lower k
    then lower_kind
    else if is_upper k
    then upper_kind
    else if k == "pattern"
    then pattern_kind
    else if k == "multipleOf"
    then multiple_of_kind
    else other_kind

module _ {F : Type 0} (go : Go F) where
  -- What a round of the loop knows: the field, the policy that constrained it, and the keyword.
  module _ (field_path existing_policy_id : String) where
    conflict : List String → Result ConstraintConflictError (Object F)
    conflict reason = err (record {
      field_path = field_path;
      set_by_policy = existing_policy_id;
      reason = sprintf reason;
    })

    loosens : String → F → F → Result ConstraintConflictError (Object F)
    unfolding conflict
    loosens keyword existing_num new_num = conflict (
        "cannot loosen "
        ∷ keyword
        ∷ " constraint on field '"
        ∷ field_path
        ∷ "': existing "
        ∷ go.sprint (float64 existing_num)
        ∷ " (set by policy '"
        ∷ existing_policy_id
        ∷ "'), attempted "
        ∷ go.sprint (float64 new_num)
        ∷ [])

    merge_const : Value F → Value F → Object F → Result ConstraintConflictError (Object F)
    unfolding conflict
    merge_const existing_val new_val merged =
        if not (json_values_equal go existing_val new_val)
        then conflict (
            "cannot change const constraint on field '"
            ∷ field_path
            ∷ "': existing value "
            ∷ go.sprint existing_val
            ∷ " (set by policy '"
            ∷ existing_policy_id
            ∷ "') differs from new value "
            ∷ go.sprint new_val
            ∷ [])
        else ok merged

    put_enum : Items F → Items F → Items F → Object F → Result ConstraintConflictError (Object F)
    unfolding conflict
    put_enum existing_enum new_enum nil merged = conflict (
        "enum constraint intersection is empty for field '"
        ∷ field_path
        ∷ "': existing "
        ∷ go.sprint (arr existing_enum)
        ∷ " (set by policy '"
        ∷ existing_policy_id
        ∷ "'), new "
        ∷ go.sprint (arr new_enum)
        ∷ [])
    put_enum existing_enum new_enum (cons v vs) merged = ok (put "enum" (arr (cons v vs)) merged)

    merge_enum :
        Option (Items F) → Option (Items F) → Object F → Result ConstraintConflictError (Object F)
    unfolding put_enum
    merge_enum (some existing_enum) (some new_enum) merged =
        put_enum existing_enum new_enum (intersect_any_slices go existing_enum new_enum) merged
    merge_enum _ _ merged = ok merged

    merge_lower :
        String → Option F → Option F → Object F → Result ConstraintConflictError (Object F)
    unfolding loosens
    merge_lower keyword (some existing_num) (some new_num) merged =
        if go.lt new_num existing_num
        then loosens keyword existing_num new_num
        else ok (put keyword (float64 (go.fmax existing_num new_num)) merged)
    merge_lower keyword _ _ merged = ok merged

    merge_upper :
        String → Option F → Option F → Object F → Result ConstraintConflictError (Object F)
    unfolding loosens
    merge_upper keyword (some existing_num) (some new_num) merged =
        if go.lt existing_num new_num
        then loosens keyword existing_num new_num
        else ok (put keyword (float64 (go.fmin existing_num new_num)) merged)
    merge_upper keyword _ _ merged = ok merged

    pattern_object : String → Value F
    pattern_object p = obj (field "pattern" (str p) empty)

    -- `merged["allOf"]` with the new pattern, from the array that stands there, if one does.
    add_pattern : String → String → Option (Items F) → Object F → Object F
    unfolding pattern_object
    add_pattern existing_pattern new_pattern (some all_of) merged =
        put "allOf" (arr (snoc all_of (pattern_object new_pattern))) merged
    add_pattern existing_pattern new_pattern none merged =
        put "allOf"
          (arr (cons (pattern_object existing_pattern) (cons (pattern_object new_pattern) nil)))
          merged

    array_at : Option (Value F) → Option (Items F)
    array_at none = none
    array_at (some v) = as_items v

    merge_pattern :
        Option String → Option String → Object F → Result ConstraintConflictError (Object F)
    unfolding add_pattern array_at
    merge_pattern (some existing_pattern) (some new_pattern) merged =
        if existing_pattern == new_pattern
        then ok merged
        else ok (add_pattern existing_pattern new_pattern (array_at (get "allOf" merged)) merged)
    merge_pattern _ _ merged = ok merged

    merge_multiple_of : Option F → Option F → Object F → Result ConstraintConflictError (Object F)
    unfolding conflict
    merge_multiple_of (some existing_num) (some new_num) merged =
        if go.is_zero existing_num
        then ok merged
        else if not (go.is_zero (go.fmod new_num existing_num))
        then conflict (
            "multipleOf "
            ∷ go.sprint (float64 new_num)
            ∷ " is not a multiple of existing "
            ∷ go.sprint (float64 existing_num)
            ∷ " on field '"
            ∷ field_path
            ∷ "' (set by policy '"
            ∷ existing_policy_id
            ∷ "')"
            ∷ [])
        else ok (put "multipleOf" (float64 new_num) merged)
    merge_multiple_of _ _ merged = ok merged

    -- The `switch`, at a keyword that the merged schema holds already.
    pub merge_present :
        Kind → String → Value F → Value F → Object F → Result ConstraintConflictError (Object F)
    unfolding merge_const merge_enum merge_lower merge_upper merge_pattern merge_multiple_of
    merge_present const_kind keyword existing_val new_val merged =
        merge_const existing_val new_val merged
    merge_present enum_kind keyword existing_val new_val merged =
        merge_enum (as_items existing_val) (as_items new_val) merged
    merge_present lower_kind keyword existing_val new_val merged =
        merge_lower keyword (to_float64 go existing_val) (to_float64 go new_val) merged
    merge_present upper_kind keyword existing_val new_val merged =
        merge_upper keyword (to_float64 go existing_val) (to_float64 go new_val) merged
    merge_present pattern_kind keyword existing_val new_val merged =
        merge_pattern (as_string existing_val) (as_string new_val) merged
    merge_present multiple_of_kind keyword existing_val new_val merged =
        merge_multiple_of (to_float64 go existing_val) (to_float64 go new_val) merged
    merge_present other_kind keyword existing_val new_val merged = ok (put keyword new_val merged)

    -- One round of the loop, from what the merged schema holds at the keyword.
    merge_keyword :
        String → Value F → Option (Value F) → Object F → Result ConstraintConflictError (Object F)
    unfolding merge_present
    merge_keyword keyword new_val none merged = ok (put keyword new_val merged)
    merge_keyword keyword new_val (some existing_val) merged =
        merge_present (kind_of keyword) keyword existing_val new_val merged

    merge_keywords : Object F → Object F → Result ConstraintConflictError (Object F)
    unfolding merge_keyword
    merge_keywords empty merged = ok merged
    merge_keywords (field keyword new_val new) merged =
        merge_keyword keyword new_val (get keyword merged) merged >>= λ m. merge_keywords new m

    unfoldable pub merge_schema_keywords :
        Object F → Object F → Result ConstraintConflictError (Object F)
    unfolding merge_keywords
    merge_schema_keywords existing new = merge_keywords new (deep_copy_schema_map go existing)
