-- ===== src/Service/Constraints/Keywords/Tightening.antt =====
-- Merging schemas tightens them.
use policy_manager.Base.{◌≡◌, ◌≢◌, refl, inl, Bool, true, String, Option, none, some, ok, >>=-eq-ok}
use policy_manager.Json.{Value, Object, empty, field, get}
use policy_manager.Json.Go.{Go, Copies}
use policy_manager.Service.Constraints.Copy.{deep_copy_schema_map_lem}
use policy_manager.Service.Constraints.Keywords.{
  other_kind, kind_of, merge_keyword, merge_keywords, merge_schema_keywords,
}
use policy_manager.Service.Constraints.Keywords.Meaning.{
  Meaning, AllOfIsArray, IsExact, Stricter-IsExact, Accepts, Stricter, added, Stricter-Accepts,
  Stricter-AllOfIsArray,
}
use policy_manager.Service.Constraints.Keywords.Names.{IsMerged, IsMerged-kind_of}
use policy_manager.Service.Constraints.Keywords.Bounds.{not_all_of, ok-inj, keyword-Stricter}

-- Every keyword of the new schema is one that is merged, and no value is a number that float64 rounds.
abbrev pub AllMerged : {F : Type 0} → (Value F → Bool) → Object F → Type 0
AllMerged is_exact empty = Unit
AllMerged is_exact (field k y new) = IsMerged k × (is_exact y ≡ true) × AllMerged is_exact new

module _ {F : Type 0} {go : Go F} {holds : String → Value F → Value F → Bool} (path policy : String)
    (M : Meaning go holds) where
  round-Stricter :
      (k : String) (y : Value F) (p : Option (Value F)) (o m : Object F) (v : Value F)
      → kind_of k ≢ other_kind
      → M.is_exact y ≡ true
      → IsExact M.is_exact o
      → get k o ≡ p
      → AllOfIsArray o
      → merge_keyword go path policy k y p o ≡ ok m
      → Stricter holds M.is_exact v o m
  unfolding merge_keyword
  round-Stricter k y none o m v n whole exact at arrays h =
      added k y (inl (not_all_of k n)) whole at (ok-inj _ m h)
  round-Stricter k y (some x) o m v n whole exact at arrays h =
      keyword-Stricter path policy M k (kind_of k) x y o m v refl n (exact k x at) at arrays h

  merge_keywords-tightens :
      (new o m : Object F) (v : Value F)
      → AllMerged M.is_exact new
      → AllOfIsArray o
      → IsExact M.is_exact o
      → merge_keywords go path policy new o ≡ ok m
      → Accepts holds m v
      → Accepts holds o v
  unfolding merge_keywords
  merge_keywords-tightens empty o m v all arrays exact h acc = rw (ok-inj o m h) acc
  merge_keywords-tightens (field k y new) o m v all arrays exact h acc =
      let (o', first, later) = >>=-eq-ok (merge_keyword go path policy k y (get k o) o) _ h in
      let s =
        round-Stricter k y (get k o) o o' v (IsMerged-kind_of all.0) all.1 exact refl arrays
          first in
      Stricter-Accepts holds M.is_exact v o o' s (
        merge_keywords-tightens new o' m v all.2
          (Stricter-AllOfIsArray holds M.is_exact v o o' s arrays)
          (Stricter-IsExact holds M.is_exact v o o' s exact) later acc)

-- Tightening only: if copies are faithful, the keywords mean what JSON Schema documents, no number in
-- the two schemas is one that float64 rounds, every keyword of the new schema is `const`, `enum`,
-- `pattern`, `multipleOf` or a lower or upper bound, and the existing `allOf`, if any, is an array, then
-- a value that the merged schema accepts is one that the existing schema accepts, in whatever order the
-- loop visits the new keywords.
pub merge_schema_keywords-tightens :
    {F : Type 0} {go : Go F} {holds : String → Value F → Value F → Bool} (path policy : String)
    (M : Meaning go holds)
    → Copies go
    → (existing new merged : Object F) (v : Value F) → AllMerged M.is_exact new
    → AllOfIsArray existing
    → IsExact M.is_exact existing
    → merge_schema_keywords go path policy existing new ≡ ok merged
    → Accepts holds merged v
    → Accepts holds existing v
unfolding merge_schema_keywords
merge_schema_keywords-tightens {go = go} path policy M c existing new merged v all arrays exact h
      acc =
    merge_keywords-tightens path policy M new existing merged v all arrays exact
      (rw (deep_copy_schema_map_lem go existing c) at h) acc
