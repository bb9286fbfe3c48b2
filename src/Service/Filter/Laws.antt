-- ===== src/Service/Filter/Laws.antt =====
-- internal/service/filter.go: what a filter that is accepted can be.
use policy_manager.Base.{
  ℕ, ◌≡◌, refl, ◌⊎◌, inl, inr, Bool, true, false, ◌||◌, String, Option, none, some, List, [], ◌∷◌,
  ◌==◌, Result, ok, Bool-cases, eq_iff, is_some, leb, arith, if◌then◌else◌,
}
use policy_manager.Base.Ascii.{codes}
use policy_manager.Store.Model.{PolicyFilter}
use policy_manager.Service.Errors.{ServiceError}
use policy_manager.Service.Filter.{
  strip, and_then, or_else, match_policy_type, match_enabled, assignment, either_word, is_true,
  quoted_type, leftmost, count_and, check_filter, parse_filter,
}

-- The policy type is absent, or one of the two.
abbrev pub IsKnownType : Option String → Type 0
IsKnownType none = Unit
IsKnownType (some t) = (t ≡ "GLOBAL") ⊎ (t ≡ "USER")

quoted_word :
    (r : Option String)
    → IsKnownType (and_then r λ m. some (if m == "GLOBAL'" then "GLOBAL" else "USER"))
quoted_word none = tt
quoted_word (some m) = elim (Bool-cases (m == "GLOBAL'")) [
  | inl e ↦ rw e (inl refl)
  | inr e ↦ rw e (inr refl)
]

quoted_rest :
    (r : Option (List ℕ)) (f : List ℕ → Option String)
    → ((s : List ℕ) → IsKnownType (f s))
    → IsKnownType (and_then r f)
quoted_rest none f h = tt
quoted_rest (some s) f h = h s

IsKnownType-quoted_type : (s : List ℕ) → IsKnownType (quoted_type s)
unfolding quoted_type
IsKnownType-quoted_type s =
    quoted_rest (strip (codes "'") s) _ (λ rest. quoted_word (either_word "GLOBAL'" "USER'" rest))

IsKnownType-or_else :
    (a b : Option String) → IsKnownType a → IsKnownType b → IsKnownType (or_else a b)
IsKnownType-or_else none b h k = k
IsKnownType-or_else (some x) b h k = h

IsKnownType-leftmost :
    (match_at : List ℕ → Option String) (s : List ℕ)
    → ((t : List ℕ) → IsKnownType (match_at t))
    → IsKnownType (leftmost match_at s)
unfolding leftmost
IsKnownType-leftmost match_at [] h = h []
IsKnownType-leftmost match_at (c ∷ s) h =
    IsKnownType-or_else (match_at (c ∷ s)) (leftmost match_at s) (h (c ∷ s))
      (IsKnownType-leftmost match_at s h)

IsKnownType-match_policy_type : (s : String) → IsKnownType (match_policy_type s)
unfolding match_policy_type
IsKnownType-match_policy_type s =
    IsKnownType-leftmost (λ t. and_then (assignment "policy_type" t) quoted_type) (codes s)
      (λ t. quoted_rest (assignment "policy_type" t) quoted_type IsKnownType-quoted_type)

-- The policy type is known, and there is at least one condition.
pub record IsFilter (filter : PolicyFilter) : Type 0 where
  pub known_type : IsKnownType filter.policy_type
  pub restricts : (is_some filter.policy_type || is_some filter.enabled) ≡ true

check_filter-IsFilter :
    (s : String) (filter : PolicyFilter) (r : Option PolicyFilter)
    → check_filter s filter ≡ ok r
    → (r ≡ some filter)
      × ((is_some filter.policy_type || is_some filter.enabled) ≡ true)
      × (leb (count_and s) 1 ≡ true)
unfolding check_filter
check_filter-IsFilter s filter r h = ground arith

abbrev filter_of : String → PolicyFilter
filter_of s = record { policy_type = match_policy_type s; enabled = is_true (match_enabled s) }

-- The two branches of a check whose first one accepts nothing.
if_cases :
    {P Q : Type 0} (b : Bool) (checked : Result ServiceError (Option PolicyFilter))
    (r : Option PolicyFilter)
    → (if b then ok none else checked) ≡ ok r
    → (b ≡ true → P)
    → (checked ≡ ok r → Q)
    → (P × (r ≡ none)) ⊎ Q
if_cases true checked r h p q = inl (p refl, cc)
if_cases false checked r h p q = inr (q h)

-- A filter that is accepted from a text that is not empty restricts the type to GLOBAL or USER, or the
-- enabled flag, or both, and its text has at most one AND; the empty text is no filter.
pub parse_filter-IsFilter :
    (s : String) (r : Option PolicyFilter)
    → parse_filter s ≡ ok r
    → ((s ≡ "") × (r ≡ none))
      ⊎ ((filter : PolicyFilter) × (r ≡ some filter)
          × IsFilter filter
          × (leb (count_and s) 1 ≡ true))
unfolding parse_filter
parse_filter-IsFilter s r h =
    if_cases (s == "") (check_filter s (filter_of s)) r h (λ e. (eq_iff s "").0 e)
      (λ given.
        let (same, restricts, ands) = check_filter-IsFilter s (filter_of s) r given in
        (
          filter_of s,
          same,
          record { known_type = IsKnownType-match_policy_type s; restricts = restricts },
          ands,
        ))
