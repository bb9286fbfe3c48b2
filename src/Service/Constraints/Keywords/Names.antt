-- ===== src/Service/Constraints/Keywords/Names.antt =====
-- The keywords of JSON Schema that bound from below and from above, and those that are merged.
use policy_manager.Base.{
  ◌≡◌, ◌≢◌, refl, sym, subst, ◌||◌, ◌⊎◌, inl, inr, Bool, true, false, String, ◌==◌, eq_iff, arith,
}
use policy_manager.Service.Constraints.Keywords.{
  lower_kind, upper_kind, other_kind, kind_of, is_lower, is_upper,
}

pub data IsLowerBound : String → Type 0 where
  minimum : IsLowerBound "minimum"
  min_length : IsLowerBound "minLength"
  min_items : IsLowerBound "minItems"
  min_properties : IsLowerBound "minProperties"
  exclusive_minimum : IsLowerBound "exclusiveMinimum"

pub data IsUpperBound : String → Type 0 where
  maximum : IsUpperBound "maximum"
  max_length : IsUpperBound "maxLength"
  max_items : IsUpperBound "maxItems"
  max_properties : IsUpperBound "maxProperties"
  exclusive_maximum : IsUpperBound "exclusiveMaximum"

pub data IsMerged : String → Type 0 where
  const_merged : IsMerged "const"
  enum_merged : IsMerged "enum"
  pattern_merged : IsMerged "pattern"
  multiple_of_merged : IsMerged "multipleOf"
  lower_merged : {k : String} → IsLowerBound k → IsMerged k
  upper_merged : {k : String} → IsUpperBound k → IsMerged k

pub IsLowerBound-kind_of : {k : String} → IsLowerBound k → kind_of k ≡ lower_kind
unfolding kind_of is_lower
IsLowerBound-kind_of minimum = refl
IsLowerBound-kind_of min_length = refl
IsLowerBound-kind_of min_items = refl
IsLowerBound-kind_of min_properties = refl
IsLowerBound-kind_of exclusive_minimum = refl

pub IsUpperBound-kind_of : {k : String} → IsUpperBound k → kind_of k ≡ upper_kind
unfolding kind_of is_lower is_upper
IsUpperBound-kind_of maximum = refl
IsUpperBound-kind_of max_length = refl
IsUpperBound-kind_of max_items = refl
IsUpperBound-kind_of max_properties = refl
IsUpperBound-kind_of exclusive_maximum = refl

pub IsMerged-kind_of : {k : String} → IsMerged k → kind_of k ≢ other_kind
unfolding kind_of is_lower is_upper
IsMerged-kind_of const_merged h = cc h
IsMerged-kind_of enum_merged h = cc h
IsMerged-kind_of pattern_merged h = cc h
IsMerged-kind_of multiple_of_merged h = cc (h)
IsMerged-kind_of (lower_merged l) h = let e = IsLowerBound-kind_of l in cc
IsMerged-kind_of (upper_merged u) h = let e = IsUpperBound-kind_of u in cc

or_cases : (a b : Bool) → (a || b) ≡ true → (a ≡ true) ⊎ (b ≡ true)
or_cases true b h = inl refl
or_cases false b h = inr h

at-IsLowerBound : {k : String} (s : String) → IsLowerBound s → (k == s) ≡ true → IsLowerBound k
at-IsLowerBound s b e = subst IsLowerBound (sym ((eq_iff _ s).0 e)) b

is_lower-IsLowerBound : (k : String) → is_lower k ≡ true → IsLowerBound k
unfolding is_lower
is_lower-IsLowerBound k h =
    elim (or_cases (k == "minimum" || k == "minLength" || k == "minItems" || k == "minProperties")
      (k == "exclusiveMinimum") h) [
        | inr e ↦ at-IsLowerBound "exclusiveMinimum" exclusive_minimum e
        | inl h4 ↦
            elim (or_cases (k == "minimum" || k == "minLength" || k == "minItems")
              (k == "minProperties") h4) [
                | inr e ↦ at-IsLowerBound "minProperties" min_properties e
                | inl h3 ↦
                    elim (or_cases (k == "minimum" || k == "minLength") (k == "minItems") h3) [
                      | inr e ↦ at-IsLowerBound "minItems" min_items e
                      | inl h2 ↦ elim (or_cases (k == "minimum") (k == "minLength") h2) [
                        | inr e ↦ at-IsLowerBound "minLength" min_length e
                        | inl e ↦ at-IsLowerBound "minimum" minimum e
                      ]
                    ]
              ]
      ]

at-IsUpperBound : {k : String} (s : String) → IsUpperBound s → (k == s) ≡ true → IsUpperBound k
at-IsUpperBound s b e = subst IsUpperBound (sym ((eq_iff _ s).0 e)) b

is_upper-IsUpperBound : (k : String) → is_upper k ≡ true → IsUpperBound k
unfolding is_upper
is_upper-IsUpperBound k h =
    elim (or_cases (k == "maximum" || k == "maxLength" || k == "maxItems" || k == "maxProperties")
      (k == "exclusiveMaximum") h) [
        | inr e ↦ at-IsUpperBound "exclusiveMaximum" exclusive_maximum e
        | inl h4 ↦
            elim (or_cases (k == "maximum" || k == "maxLength" || k == "maxItems")
              (k == "maxProperties") h4) [
                | inr e ↦ at-IsUpperBound "maxProperties" max_properties e
                | inl h3 ↦
                    elim (or_cases (k == "maximum" || k == "maxLength") (k == "maxItems") h3) [
                      | inr e ↦ at-IsUpperBound "maxItems" max_items e
                      | inl h2 ↦ elim (or_cases (k == "maximum") (k == "maxLength") h2) [
                        | inr e ↦ at-IsUpperBound "maxLength" max_length e
                        | inl e ↦ at-IsUpperBound "maximum" maximum e
                      ]
                    ]
              ]
      ]

pub kind_of-IsLowerBound : (k : String) → kind_of k ≡ lower_kind → IsLowerBound k
unfolding kind_of
kind_of-IsLowerBound k h = is_lower-IsLowerBound k (ground arith)

pub kind_of-IsUpperBound : (k : String) → kind_of k ≡ upper_kind → IsUpperBound k
unfolding kind_of
kind_of-IsUpperBound k h = is_upper-IsUpperBound k (ground arith)
