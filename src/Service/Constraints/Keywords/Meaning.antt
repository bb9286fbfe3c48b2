-- ===== src/Service/Constraints/Keywords/Meaning.antt =====
-- What the keywords of a schema mean, and what it is for one schema to be stricter than another.
use policy_manager.Base.{
  ◌≡◌, refl, subst, ◌⊎◌, inl, inr, Bool, true, false, String, none, some, ◌==◌, eq_iff, eq_refl,
  arith, Bool-cases,
}
use mathlib.Core.Option.{some-injective}
use policy_manager.Json.{Value, float64, arr, Items, nil, cons, Object, get, put, snoc}
use policy_manager.Json.Laws.{get-put}
use policy_manager.Json.Go.{Go}
use policy_manager.Service.Constraints.Values.{to_float64, equals_some, intersect_any_slices}
use policy_manager.Service.Constraints.Keywords.Names.{IsLowerBound, IsUpperBound}

module _ {F : Type 0} where
  abbrev pub IsIn : Value F → Items F → Type 0
  IsIn v nil = ⊥
  IsIn v (cons x xs) = (v ≡ x) ⊎ IsIn v xs

  -- Each value of the first array stands in the second.
  abbrev pub Within : Items F → Items F → Type 0
  Within nil ys = Unit
  Within (cons x xs) ys = IsIn x ys × Within xs ys

  -- What JSON Schema documents of the keywords, for bounds that float64 does not round: `holds k x v` says that the value `v` meets keyword
  -- `k` with the value `x`.
  pub record Meaning (go : Go F) (holds : String → Value F → Value F → Bool) : Type 0 where
    -- Whether a value is no number, or one that float64 does not round.
    pub is_exact : Value F → Bool
    pub exact_float : (a : F) → is_exact (float64 a) ≡ true
    pub exact_items : (xs : Items F) → is_exact (arr xs) ≡ true
    -- A smaller lower bound, and a larger upper bound, accept more.
    pub lower :
        (k : String) (x v : Value F) (a b : F)
        → IsLowerBound k
        → is_exact x ≡ true
        → to_float64 go x ≡ some a
        → go.lt b a ≡ false
        → holds k (float64 b) v ≡ true
        → holds k x v ≡ true
    pub upper :
        (k : String) (x v : Value F) (a b : F)
        → IsUpperBound k
        → is_exact x ≡ true
        → to_float64 go x ≡ some a
        → go.lt a b ≡ false
        → holds k (float64 b) v ≡ true
        → holds k x v ≡ true
    -- More values accept more.
    pub enum :
        (xs ys : Items F) (v : Value F)
        → Within xs ys
        → holds "enum" (arr xs) v ≡ true
        → holds "enum" (arr ys) v ≡ true
    -- A multiple of `b` is a multiple of what divides `b`.
    pub multiple :
        (x v : Value F) (a b : F)
        → is_exact x ≡ true
        → to_float64 go x ≡ some a
        → go.is_zero (go.fmod b a) ≡ true
        → holds "multipleOf" (float64 b) v ≡ true
        → holds "multipleOf" x v ≡ true
    -- Fewer schemas accept more.
    pub all_of :
        (xs : Items F) (x v : Value F)
        → holds "allOf" (arr (snoc xs x)) v ≡ true
        → holds "allOf" (arr xs) v ≡ true
    -- math.Max is not below its first argument, where the second is not; so for math.Min.
    pub max_le : (a b : F) → go.lt b a ≡ false → go.lt (go.fmax a b) a ≡ false
    pub min_le : (a b : F) → go.lt a b ≡ false → go.lt a (go.fmin a b) ≡ false

  IsIn-Within : (xs ys : Items F) (y : Value F) → Within xs ys → Within xs (cons y ys)
  IsIn-Within nil ys y h = tt
  IsIn-Within (cons x xs) ys y h = (inr h.0, IsIn-Within xs ys y h.1)

  pub intersect-Within : (go : Go F) (a b : Items F) → Within (intersect_any_slices go a b) a
  unfolding intersect_any_slices
  intersect-Within go nil b = tt
  intersect-Within go (cons av a) b = elim (Bool-cases (equals_some go av b)) [
    | inl e ↦
        rw e (inl refl, IsIn-Within (intersect_any_slices go a b) a av (intersect-Within go a b))
    | inr e ↦ rw e (IsIn-Within (intersect_any_slices go a b) a av (intersect-Within go a b))
  ]

  -- A value of `allOf` is an array.
  abbrev pub IsHarmless : String → Value F → Type 0
  IsHarmless k y = ((k == "allOf") ≡ false) ⊎ ((xs : Items F) × (y ≡ arr xs))

  -- `allOf`, where a schema holds it, is an array, which every valid schema has.
  abbrev pub AllOfIsArray : Object F → Type 0
  AllOfIsArray o = (x : Value F) → get "allOf" o ≡ some x → (xs : Items F) × (x ≡ arr xs)

  put-AllOfIsArray :
      (k : String) (y : Value F) (o : Object F)
      → IsHarmless k y
      → AllOfIsArray o
      → AllOfIsArray (put k y o)
  put-AllOfIsArray k y o fine arrays x h = elim (Bool-cases (k == "allOf")) [
    | inl e ↦ elim fine [ inl ne ↦ absurd (cc) | inr (xs, is) ↦ (xs, cc (rw (get-put, e) at h)) ]
    | inr ne ↦ arrays x (rw (get-put, ne) at h)
  ]

module _ {F : Type 0} (is_exact : Value F → Bool) where
  -- No value of the schema is a number that float64 rounds.
  abbrev pub IsExact : Object F → Type 0
  IsExact o = (k : String) (x : Value F) → get k o ≡ some x → is_exact x ≡ true

  put-IsExact :
      (k : String) (y : Value F) (o : Object F)
      → is_exact y ≡ true
      → IsExact o
      → IsExact (put k y o)
  put-IsExact k y o fine exact j x h = elim (Bool-cases (k == j)) [
    | inl e ↦ let same = some-injective y x (rw (get-put, e) at h) in cc
    | inr ne ↦ exact j x (rw (get-put, ne) at h)
  ]

module _ {F : Type 0} (holds : String → Value F → Value F → Bool) where
  -- Every keyword of the schema accepts the value.
  abbrev pub Accepts : Object F → Value F → Type 0
  Accepts schema v = (k : String) (x : Value F) → get k schema ≡ some x → holds k x v ≡ true

module _ {F : Type 0} (holds : String → Value F → Value F → Bool) (is_exact : Value F → Bool) where
  -- A round leaves the schema as it is, sets a keyword that was not there, or sets a keyword to a
  -- value that accepts no more than the old one.
  pub data Stricter (v : Value F) (o m : Object F) : Type 0 where
    same : o ≡ m → Stricter v o m
    added :
        (k : String) (y : Value F)
        → IsHarmless k y
        → is_exact y ≡ true
        → get k o ≡ none
        → put k y o ≡ m
        → Stricter v o m
    tightened :
        (k : String) (x y : Value F)
        → IsHarmless k y
        → is_exact y ≡ true
        → get k o ≡ some x
        → (holds k y v ≡ true → holds k x v ≡ true)
        → put k y o ≡ m
        → Stricter v o m

  pub Stricter-Accepts :
      (v : Value F) (o m : Object F) → Stricter v o m → Accepts holds m v → Accepts holds o v
  Stricter-Accepts v o m (same e) acc j z hz = acc j z (rw (← e) hz)
  Stricter-Accepts v o m (added k y fine whole at e) acc j z hz = elim (Bool-cases (k == j)) [
    | inl eq ↦ let here = (eq_iff k j).0 eq in cc
    | inr ne ↦ acc j z (rw (← e, get-put, ne) hz)
  ]
  Stricter-Accepts v o m (tightened k x y fine whole at weaker e) acc j z hz =
      elim (Bool-cases (k == j)) [
        | inl eq ↦
            let here = (eq_iff k j).0 eq in
            let new = acc k y (rw (← e, get-put, eq_refl)) in ground (arith, weaker new)
        | inr ne ↦ acc j z (rw (← e, get-put, ne) hz)
      ]

  pub Stricter-AllOfIsArray :
      (v : Value F) (o m : Object F) → Stricter v o m → AllOfIsArray o → AllOfIsArray m
  Stricter-AllOfIsArray v o m (same e) arrays x h = arrays x (rw e h)
  Stricter-AllOfIsArray v o m (added k y fine whole at e) arrays x h =
      put-AllOfIsArray k y o fine arrays x (rw e h)
  Stricter-AllOfIsArray v o m (tightened k z y fine whole at weaker e) arrays x h =
      put-AllOfIsArray k y o fine arrays x (rw e h)

  pub Stricter-IsExact :
      (v : Value F) (o m : Object F) → Stricter v o m → IsExact is_exact o → IsExact is_exact m
  Stricter-IsExact v o m (same e) exact = subst (IsExact is_exact) e exact
  Stricter-IsExact v o m (added k y fine whole at e) exact =
      subst (IsExact is_exact) e (put-IsExact is_exact k y o whole exact)
  Stricter-IsExact v o m (tightened k x y fine whole at weaker e) exact =
      subst (IsExact is_exact) e (put-IsExact is_exact k y o whole exact)
