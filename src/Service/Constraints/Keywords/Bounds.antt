-- ===== src/Service/Constraints/Keywords/Bounds.antt =====
-- Each case of the `switch` leaves a schema that is at least as strict.
use policy_manager.Base.{
  ◌≡◌, ◌≢◌, refl, ap, inl, inr, Bool, true, false, String, Option, none, some, ◌==◌, eq_iff, arith,
  Result, ok, Bool-cases, Option-cases,
}
use policy_manager.Json.{Value, float64, arr, Items, nil, cons, Object, get, as_items, as_string}
use policy_manager.Json.Go.{Go}
use policy_manager.Service.Constraints.Values.{to_float64, json_values_equal, intersect_any_slices}
use policy_manager.Service.Constraints.Keywords.{
  ConstraintConflictError, Kind, const_kind, enum_kind, lower_kind, upper_kind, pattern_kind,
  multiple_of_kind, other_kind, kind_of, is_lower, is_upper, merge_lower, merge_upper, merge_enum,
  merge_const, merge_pattern, merge_multiple_of, merge_present, add_pattern, array_at, put_enum,
}
use policy_manager.Service.Constraints.Keywords.Names.{kind_of-IsLowerBound, kind_of-IsUpperBound}
use policy_manager.Service.Constraints.Keywords.Meaning.{
  Within, Meaning, intersect-Within, AllOfIsArray, Stricter, same, added, tightened,
}

pub kind-enum : (k : String) → kind_of k ≡ enum_kind → k ≡ "enum"
unfolding kind_of
kind-enum k e = ground (arith, eq_iff k "enum")

pub kind-multiple_of : (k : String) → kind_of k ≡ multiple_of_kind → k ≡ "multipleOf"
unfolding kind_of
kind-multiple_of k e = ground (arith, eq_iff k "multipleOf")

pub not_all_of : (k : String) → kind_of k ≢ other_kind → (k == "allOf") ≡ false
unfolding kind_of is_lower is_upper
not_all_of k n = elim (Bool-cases (k == "allOf")) [
  | inl e ↦ let is : k ≡ "allOf" = (eq_iff k "allOf").0 e in absurd (n (rw is refl))
  | inr e ↦ e
]

module _ {F : Type 0} where
  pub ok-inj :
      (o m : Object F) → ◌≡◌ {A = Result ConstraintConflictError (Object F)} (ok o) (ok m) → o ≡ m
  ok-inj o m h = cc

module _ {F : Type 0} {go : Go F} {holds : String → Value F → Value F → Bool} (path policy : String)
    (M : Meaning go holds) where
  lower-Stricter :
      (k : String) (x : Value F) (p q : Option F) (o m : Object F) (v : Value F)
      → kind_of k ≡ lower_kind
      → M.is_exact x ≡ true
      → to_float64 go x ≡ p
      → get k o ≡ some x
      → merge_lower go path policy k p q o ≡ ok m
      → Stricter holds M.is_exact v o m
  unfolding merge_lower to_float64
  lower-Stricter k x (some a) (some b) o m v kind whole at_x at h = elim (Bool-cases (go.lt b a)) [
    | inl e ↦ absurd (cc (rw (e, merge_lower) at h))
    | inr e ↦
        tightened k x (float64 (go.fmax a b)) (inl (not_all_of k (λ o. cc))) (M.exact_float _) at
          (M.lower k x v a (go.fmax a b) (kind_of-IsLowerBound k kind) whole at_x (M.max_le a b e))
          (ground arith)
  ]
  lower-Stricter k x none q o m v kind whole at_x at h = same (ok-inj o m h)
  lower-Stricter k x (some a) none o m v kind whole at_x at h = same (ok-inj o m h)

  upper-Stricter :
      (k : String) (x : Value F) (p q : Option F) (o m : Object F) (v : Value F)
      → kind_of k ≡ upper_kind
      → M.is_exact x ≡ true
      → to_float64 go x ≡ p
      → get k o ≡ some x
      → merge_upper go path policy k p q o ≡ ok m
      → Stricter holds M.is_exact v o m
  unfolding merge_upper to_float64
  upper-Stricter k x (some a) (some b) o m v kind whole at_x at h = elim (Bool-cases (go.lt a b)) [
    | inl e ↦ absurd (cc (rw (e, merge_upper) at h))
    | inr e ↦
        tightened k x (float64 (go.fmin a b)) (inl (not_all_of k (λ o. cc))) (M.exact_float _) at
          (M.upper k x v a (go.fmin a b) (kind_of-IsUpperBound k kind) whole at_x (M.min_le a b e))
          (ground arith)
  ]
  upper-Stricter k x none q o m v kind whole at_x at h = same (ok-inj o m h)
  upper-Stricter k x (some a) none o m v kind whole at_x at h = same (ok-inj o m h)

  multiple_of-Stricter :
      (x : Value F) (p : Option F) (y : Value F) (q : Option F) (o m : Object F) (v : Value F)
      → M.is_exact x ≡ true
      → to_float64 go x ≡ p
      → get "multipleOf" o ≡ some x
      → merge_multiple_of go path policy p q o ≡ ok m
      → Stricter holds M.is_exact v o m
  unfolding merge_multiple_of to_float64
  multiple_of-Stricter x (some a) y (some b) o m v whole at_x at h =
      elim (Bool-cases (go.is_zero a)) [
        | inl z ↦ same (ok-inj o m (rw (z, merge_multiple_of) at h))
        | inr nz ↦ elim (Bool-cases (go.is_zero (go.fmod b a))) [
          | inl e ↦
              tightened "multipleOf" x (float64 b) (inl refl) (M.exact_float b) at
                (M.multiple x v a b whole at_x e) (ground arith)
          | inr e ↦ absurd (cc (rw (nz, e, merge_multiple_of) at h))
        ]
      ]
  multiple_of-Stricter x none y q o m v whole at_x at h = same (ok-inj o m h)
  multiple_of-Stricter x (some a) y none o m v whole at_x at h = same (ok-inj o m h)

  const-Stricter :
      (x y : Value F) (o m : Object F) (v : Value F)
      → merge_const go path policy x y o ≡ ok m
      → Stricter holds M.is_exact v o m
  unfolding merge_const
  const-Stricter x y o m v h = elim (Bool-cases (json_values_equal go x y)) [
    | inl e ↦ same (ok-inj o m (rw (e, merge_const) at h))
    | inr e ↦ absurd (cc (rw (e, merge_const) at h))
  ]

  put_enum-Stricter :
      (xs ys zs : Items F) (o m : Object F) (v : Value F)
      → Within zs xs
      → get "enum" o ≡ some (arr xs)
      → put_enum go path policy xs ys zs o ≡ ok m
      → Stricter holds M.is_exact v o m
  unfolding put_enum
  put_enum-Stricter xs ys nil o m v w at h = absurd (cc (h))
  put_enum-Stricter xs ys (cons z zs) o m v w at h =
      tightened "enum" (arr xs) (arr (cons z zs)) (inl refl) (M.exact_items _) at
        (M.enum (cons z zs) xs v w) (ok-inj _ _ h)

  enum-Stricter :
      (x y : Value F) (o m : Object F) (v : Value F)
      → get "enum" o ≡ some x
      → merge_enum go path policy (as_items x) (as_items y) o ≡ ok m
      → Stricter holds M.is_exact v o m
  unfolding merge_enum
  enum-Stricter (arr xs) (arr ys) o m v at h =
      put_enum-Stricter xs ys (intersect_any_slices go xs ys) o m v (intersect-Within go xs ys) at h
  enum-Stricter x y o m v at h = same (ok-inj o m h)

  pattern-Stricter :
      (p q : Option String) (o m : Object F) (v : Value F)
      → AllOfIsArray o
      → merge_pattern go path policy p q o ≡ ok m
      → Stricter holds M.is_exact v o m
  unfolding merge_pattern add_pattern array_at
  pattern-Stricter (some a) (some b) o m v arrays h = elim (Bool-cases (a == b)) [
    | inl e ↦ same (ok-inj o m (rw (e, merge_pattern) at h))
    | inr e ↦ elim (Option-cases (get "allOf" o)) [
      | inl absent ↦
          added "allOf" _ (inr (_, refl)) (M.exact_items _) absent
            (ok-inj _ m (rw (e, absent, merge_pattern, add_pattern, array_at) at h))
      | inr (x, there) ↦
          let (xs, is) = arrays x there in
          tightened "allOf" (arr xs) _ (inr (_, refl)) (M.exact_items _) (rw there (ap some is))
            (M.all_of xs _ v)
            (ok-inj _ m (rw (e, there, is, merge_pattern, add_pattern, array_at) at h))
    ]
  ]
  pattern-Stricter none q o m v arrays h = same (ok-inj o m h)
  pattern-Stricter (some a) none o m v arrays h = same (ok-inj o m h)

  pub keyword-Stricter :
      (k : String) (kind : Kind) (x y : Value F) (o m : Object F) (v : Value F)
      → kind_of k ≡ kind
      → kind ≢ other_kind
      → M.is_exact x ≡ true
      → get k o ≡ some x
      → AllOfIsArray o
      → merge_present go path policy kind k x y o ≡ ok m
      → Stricter holds M.is_exact v o m
  unfolding merge_present
  keyword-Stricter k const_kind x y o m v e n whole at arrays h = const-Stricter x y o m v h
  keyword-Stricter k enum_kind x y o m v e n whole at arrays h =
      let is = kind-enum k e in enum-Stricter x y o m v (rw is at at) h
  keyword-Stricter k lower_kind x y o m v e n whole at arrays h =
      lower-Stricter k x (to_float64 go x) (to_float64 go y) o m v e whole refl at h
  keyword-Stricter k upper_kind x y o m v e n whole at arrays h =
      upper-Stricter k x (to_float64 go x) (to_float64 go y) o m v e whole refl at h
  keyword-Stricter k pattern_kind x y o m v e n whole at arrays h =
      pattern-Stricter (as_string x) (as_string y) o m v arrays h
  keyword-Stricter k multiple_of_kind x y o m v e n whole at arrays h =
      let is = kind-multiple_of k e in
      multiple_of-Stricter x (to_float64 go x) y (to_float64 go y) o m v whole refl (rw is at at) h
  keyword-Stricter k other_kind x y o m v e n whole at arrays h = absurd (n refl)
