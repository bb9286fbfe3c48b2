-- ===== src/Service/Constraints/Keywords/Refusal.antt =====
-- A keyword that would be loosened is refused.
use policy_manager.Base.{
  ◌≡◌, ◌≢◌, refl, sym, subst, ◌∙◌, ◌>>=◌, inl, inr, true, false, String, Option, none, some, ◌==◌,
  eq_iff, arith, Result, ok, err, Bool-cases,
}
use policy_manager.Json.{
  Value, float64, arr, Items, nil, cons, Object, empty, field, get, put, as_items, as_string,
}
use policy_manager.Json.Laws.{get-put}
use policy_manager.Json.Go.{Go, Copies}
use policy_manager.Service.Constraints.Copy.{deep_copy_schema_map_lem}
use policy_manager.Service.Constraints.Values.{to_float64, json_values_equal, intersect_any_slices}
use policy_manager.Service.Constraints.Keywords.{
  ConstraintConflictError, Kind, const_kind, enum_kind, lower_kind, upper_kind, pattern_kind,
  multiple_of_kind, other_kind, kind_of, is_lower, is_upper, merge_lower, merge_upper, merge_enum,
  merge_const, merge_pattern, merge_multiple_of, merge_present, merge_keyword, merge_keywords,
  merge_schema_keywords, add_pattern, array_at, put_enum,
}
use policy_manager.Service.Constraints.Keywords.Bounds.{kind-enum, kind-multiple_of, not_all_of}
use policy_manager.Service.Constraints.Keywords.Names.{
  IsLowerBound, IsUpperBound, IsLowerBound-kind_of, IsUpperBound-kind_of,
}
use mathlib.Core.Option.{some-injective}

module _ {F : Type 0} (go : Go F) where
  -- As `Loosens`, of the cases of the `switch`: the new value of a keyword of the kind would accept what the existing one does not.
  data LoosensAt : Kind → Value F → Value F → Type 0 where
    changed : {x y : Value F} → json_values_equal go x y ≡ false → LoosensAt const_kind x y
    disjoint :
        {xs ys : Items F}
        → intersect_any_slices go xs ys ≡ nil
        → LoosensAt enum_kind (arr xs) (arr ys)
    lowered :
        {x y : Value F} (a b : F)
        → to_float64 go x ≡ some a
        → to_float64 go y ≡ some b
        → go.lt b a ≡ true
        → LoosensAt lower_kind x y
    raised :
        {x y : Value F} (a b : F)
        → to_float64 go x ≡ some a
        → to_float64 go y ≡ some b
        → go.lt a b ≡ true
        → LoosensAt upper_kind x y
    indivisible :
        {x y : Value F} (a b : F)
        → to_float64 go x ≡ some a
        → to_float64 go y ≡ some b
        → go.is_zero a ≡ false
        → go.is_zero (go.fmod b a) ≡ false
        → LoosensAt multiple_of_kind x y

  -- The new value of the keyword would accept what the existing one does not, as far as float64 tells
  -- numbers apart.
  pub data Loosens : String → Value F → Value F → Type 0 where
    changes : {x y : Value F} → json_values_equal go x y ≡ false → Loosens "const" x y
    excludes :
        {xs ys : Items F} → intersect_any_slices go xs ys ≡ nil → Loosens "enum" (arr xs) (arr ys)
    lowers :
        {k : String} {x y : Value F} (a b : F)
        → IsLowerBound k
        → to_float64 go x ≡ some a
        → to_float64 go y ≡ some b
        → go.lt b a ≡ true
        → Loosens k x y
    raises :
        {k : String} {x y : Value F} (a b : F)
        → IsUpperBound k
        → to_float64 go x ≡ some a
        → to_float64 go y ≡ some b
        → go.lt a b ≡ true
        → Loosens k x y
    divides_not :
        {x y : Value F} (a b : F)
        → to_float64 go x ≡ some a
        → to_float64 go y ≡ some b
        → go.is_zero a ≡ false
        → go.is_zero (go.fmod b a) ≡ false
        → Loosens "multipleOf" x y

  Loosens-kind_of : {k : String} {x y : Value F} → Loosens k x y → LoosensAt (kind_of k) x y
  unfolding kind_of is_lower is_upper
  Loosens-kind_of (changes e) = changed e
  Loosens-kind_of (excludes e) = disjoint e
  Loosens-kind_of (lowers {x = x} {y = y} a b l e f h) =
      subst (λ kind. LoosensAt kind x y) (sym (IsLowerBound-kind_of l)) (lowered a b e f h)
  Loosens-kind_of (raises {x = x} {y = y} a b u e f h) =
      subst (λ kind. LoosensAt kind x y) (sym (IsUpperBound-kind_of u)) (raised a b e f h)
  Loosens-kind_of (divides_not a b e f z h) = indivisible a b e f z h

  module _ (path policy : String) where
    -- A conflict names the field and the policy that constrained it.
    abbrev IsRefused : Result ConstraintConflictError (Object F) → Type 0
    IsRefused (ok m) = ⊥
    IsRefused (err e) = (e.field_path ≡ path) × (e.set_by_policy ≡ policy)

    -- A round for another keyword keeps `k`, or is refused.
    abbrev Keeps : String → Object F → Result ConstraintConflictError (Object F) → Type 0
    Keeps k o (ok m) = get k m ≡ get k o
    Keeps k o (err e) = (e.field_path ≡ path) × (e.set_by_policy ≡ policy)

    present-IsRefused :
        (kind : Kind) (k : String) (x y : Value F) (o : Object F)
        → LoosensAt kind x y
        → IsRefused (merge_present go path policy kind k x y o)
    unfolding merge_present
    present-IsRefused kind k x y o (changed e) = rw (e, merge_const) (refl, refl)
    present-IsRefused kind k x y o (disjoint e) = rw (e, merge_enum) (refl, refl)
    present-IsRefused kind k x y o (lowered a b e f h) = rw (e, f, h, merge_lower) (refl, refl)
    present-IsRefused kind k x y o (raised a b e f h) = rw (e, f, h, merge_upper) (refl, refl)
    present-IsRefused kind k x y o (indivisible a b e f z h) =
        rw (e, f, z, h, merge_multiple_of) (refl, refl)

    enum-Keeps :
        (j : String) (xs ys zs : Items F) (o : Object F)
        → (("enum" == j) ≡ false)
        → Keeps j o (put_enum go path policy xs ys zs o)
    unfolding put_enum
    enum-Keeps j xs ys nil o n = (refl, refl)
    enum-Keeps j xs ys (cons z zs) o n = rw (get-put, n)

    put-Keeps :
        (k j : String) (y : Value F) (o : Object F) → (k == j) ≡ false → Keeps j o (ok (put k y o))
    put-Keeps k j y o n = rw (get-put, n)

    merge_enum-Keeps :
        (j : String) (p q : Option (Items F)) (o : Object F)
        → ("enum" == j) ≡ false
        → Keeps j o (merge_enum go path policy p q o)
    unfolding merge_enum
    merge_enum-Keeps j (some xs) (some ys) o n =
        enum-Keeps j xs ys (intersect_any_slices go xs ys) o n
    merge_enum-Keeps j _ _ o n = refl

    merge_lower-Keeps :
        (k j : String) (p q : Option F) (o : Object F)
        → (k == j) ≡ false
        → Keeps j o (merge_lower go path policy k p q o)
    unfolding merge_lower
    merge_lower-Keeps k j (some a) (some b) o n =
        ground (arith, get-put j k (float64 (go.fmax a b)) o)
    merge_lower-Keeps k j _ _ o n = refl

    merge_upper-Keeps :
        (k j : String) (p q : Option F) (o : Object F)
        → (k == j) ≡ false
        → Keeps j o (merge_upper go path policy k p q o)
    unfolding merge_upper
    merge_upper-Keeps k j (some a) (some b) o n =
        ground (arith, get-put j k (float64 (go.fmin a b)) o)
    merge_upper-Keeps k j _ _ o n = refl

    merge_multiple_of-Keeps :
        (j : String) (p q : Option F) (o : Object F)
        → ("multipleOf" == j) ≡ false
        → Keeps j o (merge_multiple_of go path policy p q o)
    unfolding merge_multiple_of
    merge_multiple_of-Keeps j (some a) (some b) o n =
        ground (arith, get-put j "multipleOf" (float64 b) o)
    merge_multiple_of-Keeps j _ _ o n = refl

    get-add_pattern :
        (j a b : String) (p : Option (Items F)) (o : Object F)
        → ("allOf" == j) ≡ false
        → get j (add_pattern go path policy a b p o) ≡ get j o
    unfolding add_pattern
    get-add_pattern j a b (some all_of) o n = rw (get-put, n)
    get-add_pattern j a b none o n = rw (get-put, n)

    merge_pattern-Keeps :
        (j : String) (p q : Option String) (o : Object F)
        → ("allOf" == j) ≡ false
        → Keeps j o (merge_pattern go path policy p q o)
    merge_pattern-Keeps j (some a) (some b) o n =
        let kept = get-add_pattern j a b (array_at go path policy (get "allOf" o)) o n in
        unfold merge_pattern in ground arith
    merge_pattern-Keeps j _ _ o n = unfold merge_pattern in refl

    present-Keeps :
        (kind : Kind) (k j : String) (x y : Value F) (o : Object F)
        → kind_of k ≡ kind
        → (k == j) ≡ false
        → ("allOf" == j) ≡ false
        → Keeps j o (merge_present go path policy kind k x y o)
    unfolding merge_present
    present-Keeps const_kind k j x y o e n a = ground arith
    present-Keeps enum_kind k j x y o e n a =
        merge_enum-Keeps j (as_items x) (as_items y) o (rw (kind-enum k e) at n)
    present-Keeps lower_kind k j x y o e n a =
        merge_lower-Keeps k j (to_float64 go x) (to_float64 go y) o n
    present-Keeps upper_kind k j x y o e n a =
        merge_upper-Keeps k j (to_float64 go x) (to_float64 go y) o n
    present-Keeps pattern_kind k j x y o e n a =
        merge_pattern-Keeps j (as_string x) (as_string y) o a
    present-Keeps multiple_of_kind k j x y o e n a =
        merge_multiple_of-Keeps j (to_float64 go x) (to_float64 go y) o
          (rw (kind-multiple_of k e) at n)
    present-Keeps other_kind k j x y o e n a = rw (get-put, n)

    round-Keeps :
        (k j : String) (y : Value F) (p : Option (Value F)) (o : Object F)
        → (k == j) ≡ false
        → ("allOf" == j) ≡ false
        → Keeps j o (merge_keyword go path policy k y p o)
    unfolding merge_keyword
    round-Keeps k j y none o n a = put-Keeps k j y o n
    round-Keeps k j y (some x) o n a = present-Keeps (kind_of k) k j x y o refl n a

    IsRefused-bind :
        (j : String) (o : Object F) (r : Result ConstraintConflictError (Object F))
        (f : Object F → Result ConstraintConflictError (Object F))
        → Keeps j o r
        → ((m : Object F) → get j m ≡ get j o → IsRefused (f m))
        → IsRefused (r >>= f)
    IsRefused-bind j o (ok m) f keeps next = next m keeps
    IsRefused-bind j o (err e) f keeps next = keeps

    IsRefused-bind_first :
        (r : Result ConstraintConflictError (Object F))
        (f : Object F → Result ConstraintConflictError (Object F))
        → IsRefused r
        → IsRefused (r >>= f)
    IsRefused-bind_first (ok m) f h = absurd h
    IsRefused-bind_first (err e) f h = h

    eqb_sym : (k : String) → (k == "allOf") ≡ false → ("allOf" == k) ≡ false
    eqb_sym k n = ground (arith, eq_iff k "allOf", eq_iff "allOf" k)

    head-IsRefused :
        (j k : String) (z x y : Value F) (o : Object F)
        → j ≡ k
        → get k o ≡ some x
        → z ≡ y
        → LoosensAt (kind_of k) x y
        → IsRefused (merge_keyword go path policy j z (get j o) o)
    head-IsRefused j k z x y o e at same l =
        rw (e, same, at) (unfold merge_keyword in present-IsRefused (kind_of k) k x y o l)

    merge_keywords-IsRefused :
        (new o : Object F) (k : String) (x y : Value F)
        → ("allOf" == k) ≡ false
        → get k o ≡ some x
        → get k new ≡ some y
        → LoosensAt (kind_of k) x y
        → IsRefused (merge_keywords go path policy new o)
    unfolding merge_keywords get
    merge_keywords-IsRefused empty o k x y a at new_at l = absurd (cc)
    merge_keywords-IsRefused (field j z new) o k x y a at new_at l = elim (Bool-cases (j == k)) [
      | inl e ↦
          IsRefused-bind_first (merge_keyword go path policy j z (get j o) o) _ (
            head-IsRefused j k z x y o ((eq_iff j k).0 e) at (some-injective z y (rw e at new_at))
              l)
      | inr n ↦
          IsRefused-bind k o (merge_keyword go path policy j z (get j o) o) _
            (round-Keeps j k z (get j o) o n a)
            (λ m kept. merge_keywords-IsRefused new m k x y a (kept ∙ at) (rw n at new_at) l)
    ]

    LoosensAt-merged : (kind : Kind) (x y : Value F) → LoosensAt kind x y → kind ≢ other_kind
    LoosensAt-merged kind x y (changed e) = cc
    LoosensAt-merged kind x y (disjoint e) = cc
    LoosensAt-merged kind x y (lowered a b e f h) = cc
    LoosensAt-merged kind x y (raised a b e f h) = cc
    LoosensAt-merged kind x y (indivisible a b e f z h) = cc

    merge_keywords-IsRefused_of_LoosensAt :
        (new o : Object F) (k : String) (x y : Value F)
        → get k o ≡ some x
        → get k new ≡ some y
        → LoosensAt (kind_of k) x y
        → IsRefused (merge_keywords go path policy new o)
    merge_keywords-IsRefused_of_LoosensAt new o k x y at new_at l =
        merge_keywords-IsRefused new o k x y
          (eqb_sym k (not_all_of k (LoosensAt-merged (kind_of k) x y l))) at new_at l

    refused-err :
        (r : Result ConstraintConflictError (Object F))
        → IsRefused r
        → (e : ConstraintConflictError) × (r ≡ err e)
          × (e.field_path ≡ path)
          × (e.set_by_policy ≡ policy)
    refused-err (ok m) h = absurd h
    refused-err (err e) h = (e, refl, h.0, h.1)

-- No loosening: if copies are faithful and some keyword of the new schema would accept what the
-- existing schema's does not (minimum, minLength, minItems, minProperties or exclusiveMinimum with
-- a number whose float64 is lower, maximum, maxLength, maxItems, maxProperties or exclusiveMaximum
-- with one whose float64 is higher, a const whose JSON text, or whose printed text if one of the
-- two has no JSON, differs, an enum that shares no value, a multipleOf whose remainder by the
-- existing one, which is not zero, is not zero in float64), then merging fails, in whatever order
-- the loop visits the keywords, and the error names the field and the policy that constrained it.
pub merge_schema_keywords-refuses :
    {F : Type 0} (go : Go F) (path policy : String)
    → Copies go
    → (existing new : Object F) (k : String) (x y : Value F) → get k existing ≡ some x
    → get k new ≡ some y
    → Loosens go k x y
    → (e : ConstraintConflictError) × (merge_schema_keywords go path policy existing new ≡ err e)
      × (e.field_path ≡ path)
      × (e.set_by_policy ≡ policy)
unfolding merge_schema_keywords
merge_schema_keywords-refuses go path policy c existing new k x y at new_at l =
    rw (deep_copy_schema_map_lem go existing c) (
      refused-err go path policy (merge_keywords go path policy new existing) (
        merge_keywords-IsRefused_of_LoosensAt go path policy new existing k x y at new_at
          (Loosens-kind_of go l)))
