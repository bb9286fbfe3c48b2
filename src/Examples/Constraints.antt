-- ===== src/Examples/Constraints.antt =====
-- Constraints of fields and of providers at concrete schemas.
use policy_manager.Base.{
  ℕ, ◌≡◌, refl, ◌↔◌, inl, inr, true, String, Option, some, List, [], ◌∷◌, ◌==◌, eq_iff, ok, err,
  Bool-cases,
}
use mathlib.Core.Option.{some-injective}
use policy_manager.Json.{float64, Object, empty, field, get, put}
use policy_manager.Opa.Decision.{ServiceProviderConstraints}
use policy_manager.Service.Constraints.Copy.{deep_copy_schema_map}
use policy_manager.Service.Constraints.Values.{to_float64, intersect_string_slices}
use policy_manager.Service.Constraints.Keywords.{
  ConstraintConflictError, kind_of, is_lower, is_upper, merge_schema_keywords,
}
use policy_manager.Service.Constraints.Keywords.Names
use policy_manager.Service.Constraints.Keywords.Names.{lower_merged}
use policy_manager.Service.Constraints.Keywords.Meaning.{Accepts, AllOfIsArray, IsExact}
use policy_manager.Service.Constraints.Keywords.Tightening.{
  AllMerged, merge_schema_keywords-tightens,
}
use policy_manager.Service.Constraints.Keywords.Refusal.{
  Loosens, lowers, merge_schema_keywords-refuses,
}
use policy_manager.Service.Constraints.Context.{ConstraintContext}
use policy_manager.Service.Constraints.Providers.{merge_sp_constraints, validate_service_provider}
use policy_manager.Service.Constraints.Providers.Laws.{
  Allows, validate_service_provider-merge_sp_constraints,
}
use policy_manager.Examples.Setup.{go, go-Copies, holds, go-Meaning}

abbrev minimum : ℕ → Object ℕ
minimum n = field "minimum" (float64 n) empty

raised_merge : merge_schema_keywords go "cpu" "p1" (minimum 10) (minimum 20) ≡ ok (minimum 20)
unfolding merge_schema_keywords kind_of is_lower is_upper get put to_float64 deep_copy_schema_map
raised_merge = refl

meets_20 : holds "minimum" (float64 20) (float64 25) ≡ true
unfolding kind_of is_lower is_upper to_float64
meets_20 = refl

at_minimum : (n : ℕ) → get "minimum" (minimum n) ≡ some (float64 n)
unfolding get
at_minimum n = refl

minimum-AllMerged : AllMerged go-Meaning.is_exact (minimum 20)
unfolding go-Meaning
minimum-AllMerged = (lower_merged Names.minimum, refl, tt)

minimum-IsExact : IsExact go-Meaning.is_exact (minimum 10)
unfolding go-Meaning
minimum-IsExact k x h = refl

minimum-AllOfIsArray : AllOfIsArray (minimum 10)
unfolding get
minimum-AllOfIsArray x h = absurd (cc h)

minimum-Accepts : Accepts holds (minimum 20) (float64 25)
unfolding get kind_of is_lower is_upper to_float64
minimum-Accepts k x h = elim (Bool-cases ("minimum" == k)) [
  | inl e ↦
      let key : "minimum" ≡ k = (eq_iff "minimum" k).0 e in
      let value = some-injective (float64 20) x (rw e at h) in rw (← key, ← value) meets_20
  | inr n ↦ absurd (cc (rw n at h))
]

merge_schema_keywords-tightens_example : Accepts holds (minimum 10) (float64 25)
merge_schema_keywords-tightens_example =
    merge_schema_keywords-tightens "cpu" "p1" go-Meaning go-Copies (minimum 10) (minimum 20)
      (minimum 20) (float64 25) minimum-AllMerged minimum-AllOfIsArray minimum-IsExact raised_merge
      minimum-Accepts

lower_minimum : Loosens go "minimum" (float64 20) (float64 10)
unfolding to_float64
lower_minimum = lowers 20 10 Names.minimum refl refl refl

merge_schema_keywords-refuses_example :
    (e : ConstraintConflictError) × (merge_schema_keywords go "cpu" "p1" (minimum 20) (minimum 10)
      ≡ err e)
    × (e.field_path ≡ "cpu")
    × (e.set_by_policy ≡ "p1")
merge_schema_keywords-refuses_example =
    merge_schema_keywords-refuses go "cpu" "p1" go-Copies (minimum 20) (minimum 10) "minimum"
      (float64 20) (float64 10) (at_minimum 20) (at_minimum 10) lower_minimum

abbrev allow : String → String → Option ServiceProviderConstraints
allow a b = some (record { allow_list = a ∷ b ∷ []; patterns = [] })

abbrev listed : List String → String → ConstraintContext ℕ
listed xs id = record {
  constrained_fields_by_field_path = [];
  policy_id_by_field_path = [];
  service_provider_constraints =
      some (record { allow_list = xs; patterns = []; set_by_policy = id });
}

narrowed :
    merge_sp_constraints (allow "gcp" "azure") "p2" (listed ("aws" ∷ "gcp" ∷ []) "p1")
    ≡ ok (listed ("gcp" ∷ []) "p1")
unfolding merge_sp_constraints intersect_string_slices
narrowed = refl

validate_service_provider-merge_sp_constraints_example :
    (validate_service_provider go "gcp" (listed ("gcp" ∷ []) "p1") ≡ ok tt) ↔ (
      (validate_service_provider go "gcp" (listed ("aws" ∷ "gcp" ∷ []) "p1") ≡ ok tt)
      × Allows go (allow "gcp" "azure") "gcp")
validate_service_provider-merge_sp_constraints_example =
    validate_service_provider-merge_sp_constraints go (allow "gcp" "azure") "p2" "gcp"
      (listed ("aws" ∷ "gcp" ∷ []) "p1") (listed ("gcp" ∷ []) "p1") refl narrowed
