-- ===== src/Service/Constraints/Values.antt =====
-- `toFloat64`, `jsonValuesEqual`, `intersectAnySlices` and `intersectStringSlices` of
-- internal/service/constraints.go.
use policy_manager.Base.{
  Bool, false, ◌||◌, String, Option, none, some, List, [], ◌∷◌, ◌==◌, contains, if◌then◌else◌,
}
use policy_manager.Json.{Value, float64, int, number, Items, nil, cons}
use policy_manager.Json.Go.{Go}

-- The set is the first slice: a member of it is looked up by `contains`.
unfoldable pub intersect_string_slices : List String → List String → List String
intersect_string_slices a [] = []
intersect_string_slices a (s ∷ b) =
    let rest = intersect_string_slices a b in if contains a s then s ∷ rest else rest

module _ {F : Type 0} (go : Go F) where
  unfoldable pub to_float64 : Value F → Option F
  to_float64 (float64 n) = some n
  to_float64 (int n) = some (go.of_int n)
  to_float64 (number n) = go.parse_float n
  to_float64 _ = none

  same_text : Value F → Value F → Option String → Option String → Bool
  same_text a b (some a_bytes) (some b_bytes) = a_bytes == b_bytes
  same_text a b _ _ = go.sprint a == go.sprint b

  unfoldable pub json_values_equal : Value F → Value F → Bool
  unfolding same_text
  json_values_equal a b = same_text a b (go.marshal a) (go.marshal b)

  -- The inner loop: does some value of `b` equal `av`?
  unfoldable pub equals_some : Value F → Items F → Bool
  equals_some av nil = false
  equals_some av (cons bv b) = json_values_equal av bv || equals_some av b

  unfoldable pub intersect_any_slices : Items F → Items F → Items F
  unfolding equals_some
  intersect_any_slices nil b = nil
  intersect_any_slices (cons av a) b =
      let rest = intersect_any_slices a b in if equals_some av b then cons av rest else rest
