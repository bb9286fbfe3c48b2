-- ===== src/Service/OrderBy/Laws.antt =====
-- What an ordering that is handed to the database can be.
use policy_manager.Base.{
  ◌≡◌, refl, sym, ◌∙◌, subst, All-append, ◌⊎◌, inl, inr, true, false, String, List, [], ◌∷◌, ◌==◌,
  eq_iff, Result, ok, ◌>>=◌, >>=-eq-ok, Bool-cases, if◌then◌else◌, arith, All,
}
use policy_manager.Base.Text.{trim_space, split, fields, join, sprintf}
use policy_manager.Service.Errors.{ServiceError}
use policy_manager.Service.OrderBy.{
  is_supported, default_order_by, direction_of, check_supported, check_extra, parse_clause,
  parse_parts, order_text, parse_order_by,
}

-- A supported field and ASC or DESC.
abbrev pub IsClause : String → Type 0
IsClause clause =
    (field : String) × (direction : String) × (is_supported field ≡ true)
    × ((direction ≡ "ASC") ⊎ (direction ≡ "DESC"))
    × (clause ≡ sprintf (field ∷ " " ∷ direction ∷ []))

ok_injective : {A : Type 0} {a b : A} → ◌≡◌ {A = Result ServiceError A} (ok a) (ok b) → a ≡ b
ok_injective h = cc

module _ (to_upper : String → String) where
  direction_of-eq-ok :
      (tokens : List String) (d : String)
      → direction_of to_upper tokens ≡ ok d
      → (d ≡ "ASC") ⊎ (d ≡ "DESC")
  unfolding direction_of
  direction_of-eq-ok [] d h = inl cc
  direction_of-eq-ok (t ∷ ts) d h =
      ground (arith, eq_iff (to_upper t) "ASC", eq_iff (to_upper t) "DESC")

  check_supported-eq-ok :
      (field : String) → check_supported to_upper field ≡ ok tt → is_supported field ≡ true
  unfolding check_supported
  check_supported-eq-ok field h = ground arith

  parse_clause-All :
      (part : String) (tokens cs cs' : List String)
      → parse_clause to_upper part tokens cs ≡ ok cs'
      → All IsClause cs
      → All IsClause cs'
  unfolding parse_clause
  parse_clause-All part [] cs cs' h all = subst (λ x. All IsClause x) (ok_injective h) all
  parse_clause-All part (f ∷ ts) cs cs' h all =
      let (u, supported, h1) = >>=-eq-ok (check_supported to_upper f) _ h in
      let (d, direction, h2) = >>=-eq-ok (direction_of to_upper ts) _ h1 in
      let (v, extra, h3) = >>=-eq-ok (check_extra to_upper part ts) _ h2 in
      subst (λ x. All IsClause x) (ok_injective h3)
        (All-append IsClause cs (sprintf (f ∷ " " ∷ d ∷ []) ∷ []) all
          ((f, d, check_supported-eq-ok f supported, direction_of-eq-ok ts d direction, refl), tt))

  parse_parts-All :
      (parts cs cs' : List String)
      → parse_parts to_upper parts cs ≡ ok cs'
      → All IsClause cs
      → All IsClause cs'
  unfolding parse_parts
  parse_parts-All [] cs cs' h all = subst (λ x. All IsClause x) (ok_injective h) all
  parse_parts-All (p ∷ parts) cs cs' h all =
      let (next, parsed, h1) =
        >>=-eq-ok (parse_clause to_upper (trim_space p) (fields (trim_space p)) cs) _ h in
      parse_parts-All parts next cs' h1
        (parse_clause-All (trim_space p) (fields (trim_space p)) cs next parsed all)

  order_text-IsClause :
      (cs : List String) (result : String)
      → All IsClause cs
      → order_text to_upper cs ≡ result
      → (result ≡ default_order_by)
        ⊎ ((clauses : List String) × All IsClause clauses × (result ≡ join ", " clauses))
  unfolding order_text
  order_text-IsClause [] result all h = inl (sym h)
  order_text-IsClause (c ∷ cs) result all h = inr (c ∷ cs, all, sym h)

  -- The branch that a text that is not empty takes.
  chosen :
      {A : Type 0} {r : A} (order_by : String) (a b : A)
      → (order_by == "") ≡ false
      → (if order_by == "" then a else b) ≡ r
      → b ≡ r
  chosen order_by a b given h = sym (rw given refl) ∙ h

  chain_result :
      (order_by result : String)
      → (parse_parts to_upper (split b',' order_by) [] >>= λ cs. ok (order_text to_upper cs))
        ≡ ok result
      → (result ≡ default_order_by)
        ⊎ ((clauses : List String) × All IsClause clauses × (result ≡ join ", " clauses))
  chain_result order_by result h =
      let (cs, parsed, h1) =
        >>=-eq-ok (parse_parts to_upper (split b',' order_by) [])
          (λ cs. ok (order_text to_upper cs)) h in
      order_text-IsClause cs result (parse_parts-All (split b',' order_by) [] cs parsed tt)
        (ok_injective h1)

  -- Whatever text the client sends, an ordering that is accepted, and so handed to the database as SQL,
  -- is the default one or a list of clauses, each a supported field followed by ASC or DESC.
  pub parse_order_by-IsClause :
      (order_by result : String)
      → parse_order_by to_upper order_by ≡ ok result
      → (result ≡ default_order_by)
        ⊎ ((clauses : List String) × All IsClause clauses × (result ≡ join ", " clauses))
  unfolding parse_order_by
  parse_order_by-IsClause order_by result h = elim (Bool-cases (order_by == "")) [
    | inl empty ↦ inl (ok_injective (sym h ∙ rw empty refl))
    | inr given ↦ chain_result order_by result (chosen order_by _ _ given h)
  ]
