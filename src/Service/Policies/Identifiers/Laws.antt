-- ===== src/Service/Policies/Identifiers/Laws.antt =====
-- What identifiers a client may choose.
use Prim.Native.Char.{code, Char}
use Prim.Native.String.{count}
use text.Mathlib.TextLemmas.{length-cons}
use policy_manager.Base.{
  ℕ, zero, suc, ◌≤◌, ◌≡◌, refl, ◌↔◌, Bool, true, false, ◌&&◌, ◌||◌, subst, sym, String, arith,
}
use policy_manager.Service.Policies.Identifiers.{
  is_lower, is_end, is_middle, match_group, match_id_pattern,
}

-- Every character is a lower-case letter, a digit or a hyphen.
abbrev pub HasIdChars : String → Type 0
HasIdChars String.[] = Unit
HasIdChars (String.◌∷◌ c s) = (is_middle (code c) ≡ true) × HasIdChars s

-- The last character is a lower-case letter or a digit.
abbrev pub EndsWell : String → Type 0
EndsWell String.[] = ⊥
EndsWell (String.◌∷◌ c String.[]) = is_end (code c) ≡ true
EndsWell (String.◌∷◌ c (String.◌∷◌ d s)) = EndsWell (String.◌∷◌ d s)

-- The first character is a lower-case letter.
abbrev pub StartsWell : String → Type 0
StartsWell String.[] = ⊥
StartsWell (String.◌∷◌ c s) = is_lower (code c) ≡ true

and_left : (a b : Bool) → (a && b) ≡ true → a ≡ true
and_left true b h = refl
and_left false b h = absurd (cc)

and_right : (a b : Bool) → (a && b) ≡ true → b ≡ true
and_right true b h = h
and_right false b h = absurd (cc)

and_both : (a b : Bool) → a ≡ true → b ≡ true → (a && b) ≡ true
and_both true b p q = q
and_both false b p q = absurd (cc)

or_left : (a b : Bool) → a ≡ true → (a || b) ≡ true
or_left true b h = refl
or_left false b h = absurd (cc)

lower_end : (c : ℕ) → is_lower c ≡ true → is_end c ≡ true
lower_end c h = or_left _ _ h

end_middle : (c : ℕ) → is_end c ≡ true → is_middle c ≡ true
end_middle c h = or_left _ _ h

lower_middle : (c : ℕ) → is_lower c ≡ true → is_middle c ≡ true
lower_middle c h = end_middle c (lower_end c h)

one_fits : (c : Char) (n : ℕ) → count (String.◌∷◌ c "") ≤ suc n
one_fits c n = subst (λ m. m ≤ suc n) (sym (length-cons c "")) (omega arith)

too_long : {m k j : ℕ} → m ≡ suc k → k ≡ suc j → m ≤ 1 → ⊥
too_long p q h = omega arith

two_exceed : (c d : Char) (s : String) → ¬ (count (String.◌∷◌ c (String.◌∷◌ d s)) ≤ 1)
two_exceed c d s h = too_long (length-cons c (String.◌∷◌ d s)) (length-cons d s) h

longer : (c : Char) (s : String) (n : ℕ) → count s ≤ n → count (String.◌∷◌ c s) ≤ suc n
longer c s n h = subst (λ m. m ≤ suc n) (sym (length-cons c s)) (omega arith)

shorter_of : {m k n : ℕ} → m ≡ suc k → m ≤ suc n → k ≤ n
shorter_of p h = omega arith

shorter : (c : Char) (s : String) (n : ℕ) → count (String.◌∷◌ c s) ≤ suc n → count s ≤ n
shorter c s n h = shorter_of (length-cons c s) h

match_group_iff :
    (n : ℕ) (s : String)
    → (match_group n s ≡ true) ↔ (HasIdChars s × EndsWell s × (count s ≤ suc n))
unfolding match_group
match_group_iff n String.[] = (λ h. absurd (cc), λ h. absurd h.1)
match_group_iff n (String.◌∷◌ c String.[]) =
    (λ h. ((end_middle (code c) h, tt), h, one_fits c n), λ h. h.1)
match_group_iff zero (String.◌∷◌ c (String.◌∷◌ d s)) =
    (λ h. absurd (cc), λ h. absurd (two_exceed c d s h.2))
match_group_iff (suc n) (String.◌∷◌ c (String.◌∷◌ d s)) =
    let rest = match_group_iff n (String.◌∷◌ d s) in
    (
      λ h.
          let (chars, ends, fits) = rest.0 (and_right _ _ h) in
          ((and_left _ _ h, chars), ends, longer c (String.◌∷◌ d s) (suc n) fits),
      λ h. and_both _ _ h.0.0 (rest.1 (h.0.1, h.1, shorter c (String.◌∷◌ d s) (suc n) h.2)),
    )

-- An identifier is accepted exactly when it starts with a lower-case letter, has only lower-case
-- letters, digits and hyphens, ends with a lower-case letter or a digit, and has at most 63
-- characters.
pub match_id_pattern_iff :
    (s : String)
    → (match_id_pattern s ≡ true) ↔ (StartsWell s × HasIdChars s × EndsWell s × (count s ≤ 63))
unfolding match_id_pattern
match_id_pattern_iff String.[] = (λ h. absurd (cc), λ h. absurd h.0)
match_id_pattern_iff (String.◌∷◌ c String.[]) =
    (λ h. (h, (lower_middle (code c) h, tt), lower_end (code c) h, one_fits c 62), λ h. h.0)
match_id_pattern_iff (String.◌∷◌ c (String.◌∷◌ d s)) =
    let rest = match_group_iff 61 (String.◌∷◌ d s) in
    (
      λ h.
          let (chars, ends, fits) = rest.0 (and_right _ _ h) in
          (
            and_left _ _ h,
            (lower_middle (code c) (and_left _ _ h), chars),
            ends,
            longer c (String.◌∷◌ d s) 62 fits,
          ),
      λ h. and_both _ _ h.0 (rest.1 (h.1.1, h.2, shorter c (String.◌∷◌ d s) 62 h.3)),
    )
