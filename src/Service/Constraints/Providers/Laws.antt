-- ===== src/Service/Constraints/Providers/Laws.antt =====
-- internal/service/constraints.go: which providers the accumulated constraints allow.
use policy_manager.Base.{
  ◌≡◌, refl, ap, subst, ◌↔◌, inl, inr, true, false, String, Option, none, some, List, [], ◌∷◌, ◌++◌,
  ◌==◌, eq_iff, arith, Result, ok, >>=-eq-ok, Bool-cases, contains, All, if◌then◌else◌,
}
use policy_manager.Json.Go.{Go}
use policy_manager.Opa.Decision.{ServiceProviderConstraints}
use policy_manager.Service.Constraints.Values.{intersect_string_slices}
use policy_manager.Service.Constraints.Context.{AccumulatedSpConstraints, ConstraintContext}
use policy_manager.Service.Constraints.Providers.{
  merge_allow_lists, intersected, merge_accumulated, merge_sp_constraints, check_allow_list,
  check_patterns, validate_accumulated, validate_service_provider, are_empty,
}

-- An empty list allows every provider.
abbrev pub ListAllows : List String → String → Type 0
ListAllows [] provider = Unit
ListAllows (a ∷ allow_list) provider = contains (a ∷ allow_list) provider ≡ true

module _ {F : Type 0} (go : Go F) where
  -- What a decision's constraints ask of a provider.
  abbrev pub Allows : Option ServiceProviderConstraints → String → Type 0
  Allows none provider = Unit
  Allows (some sp) provider =
      ListAllows sp.allow_list provider
      × All (λ p. go.match_string p provider ≡ ok true) sp.patterns

  abbrev AccAllows : Option AccumulatedSpConstraints → String → Type 0
  AccAllows none provider = Unit
  AccAllows (some sp) provider =
      ListAllows sp.allow_list provider
      × All (λ p. go.match_string p provider ≡ ok true) sp.patterns

  check_patterns_iff :
      (patterns : List String) (provider : String)
      → (check_patterns go patterns provider ≡ ok tt)
        ↔ All (λ p. go.match_string p provider ≡ ok true) patterns
  unfolding check_patterns
  check_patterns_iff [] provider = (λ h. tt, λ h. refl)
  check_patterns_iff (p ∷ patterns) provider = grind (arith, check_patterns_iff patterns provider)

  check_allow_list_iff :
      (allow_list : List String) (set_by provider : String)
      → (check_allow_list allow_list set_by provider ≡ ok tt) ↔ ListAllows allow_list provider
  unfolding check_allow_list
  check_allow_list_iff [] set_by provider = (λ h. tt, λ h. refl)
  check_allow_list_iff (a ∷ allow_list) set_by provider = ground arith

  validate_iff :
      (acc : Option AccumulatedSpConstraints) (provider : String)
      → (validate_accumulated go acc provider ≡ ok tt) ↔ AccAllows acc provider
  unfolding validate_accumulated
  validate_iff none provider = (λ h. tt, λ h. refl)
  validate_iff (some sp) provider =
      let l = check_allow_list_iff sp.allow_list sp.set_by_policy provider in
      let p = check_patterns_iff sp.patterns provider in
      (λ h. let (u, a, b) = >>=-eq-ok _ _ h in (l.0 a, p.0 b), λ h. rw (l.1 h.0) (p.1 h.1))

contains-intersect :
    (a b : List String) (p : String)
    → (contains (intersect_string_slices a b) p ≡ true)
      ↔ ((contains a p ≡ true) × (contains b p ≡ true))
unfolding intersect_string_slices
contains-intersect a [] p = (λ h. absurd (cc), λ h. h.1)
contains-intersect a (s ∷ b) p = ground (arith, contains-intersect a b p, eq_iff s p)

list-ok-inj :
    (xs ys : List String) → ◌≡◌ {A = Result String (List String)} (ok xs) (ok ys) → xs ≡ ys
list-ok-inj xs ys h = cc

acc-ok-inj :
    (x y : AccumulatedSpConstraints)
    → ◌≡◌ {A = Result String AccumulatedSpConstraints} (ok x) (ok y)
    → x ≡ y
acc-ok-inj x y h = cc

ListAllows-intersected :
    (policy_id set_by : String) (new old xs merged : List String) (p : String)
    → intersected policy_id set_by new old xs ≡ ok merged
    → ListAllows merged p ↔ (contains xs p ≡ true)
unfolding intersected
ListAllows-intersected i s new old [] merged p h = absurd (cc)
ListAllows-intersected i s new old (x ∷ xs) merged p h =
    subst (λ m. ListAllows m p ↔ (contains (x ∷ xs) p ≡ true)) (list-ok-inj (x ∷ xs) merged h)
      (λ a. a, λ a. a)

ListAllows-merged :
    (policy_id set_by : String) (new old merged : List String) (p : String)
    → merge_allow_lists policy_id set_by new old ≡ ok merged
    → ListAllows merged p ↔ (ListAllows old p × ListAllows new p)
unfolding merge_allow_lists
ListAllows-merged i s [] old merged p h =
    let e = list-ok-inj old merged h in (λ x. (rw e x, tt), λ x. rw (← e) x.0)
ListAllows-merged i s (a ∷ as') [] merged p h =
    subst (λ m. ListAllows m p ↔ (Unit {0} × ListAllows (a ∷ as') p))
      (list-ok-inj (a ∷ as') merged h) (λ x. (tt, x), λ x. x.1)
ListAllows-merged i s (a ∷ as') (b ∷ bs) merged p h =
    let l = ListAllows-intersected i s (a ∷ as') (b ∷ bs) _ merged p h in
    let c = contains-intersect (b ∷ bs) (a ∷ as') p in (λ x. c.0 (l.0 x), λ x. l.1 (c.1 x))

All-append_iff :
    {A : Type 0} (P : A → Type 0) (xs ys : List A) → All P (xs ++ ys) ↔ (All P xs × All P ys)
All-append_iff P [] ys = (λ h. (tt, h), λ h. h.1)
All-append_iff P (x ∷ xs) ys =
    let ih = All-append_iff P xs ys in
    (λ h. ((h.0, (ih.0 h.1).0), (ih.0 h.1).1), λ h. (h.0.0, ih.1 (h.0.1, h.1)))

module _ {F : Type 0} (go : Go F) where
  merge_accumulated-AccAllows :
      (allow_list patterns : List String) (policy_id : String)
      (acc : Option AccumulatedSpConstraints) (merged : AccumulatedSpConstraints) (p : String)
      → merge_accumulated allow_list patterns policy_id acc ≡ ok merged
      → AccAllows go (some merged) p ↔ (
          AccAllows go acc p
          × (ListAllows allow_list p × All (λ x. go.match_string x p ≡ ok true) patterns))
  unfolding merge_accumulated
  merge_accumulated-AccAllows allow_list patterns i none merged p h =
      subst
        (λ r. AccAllows go (some r) p ↔ (
          Unit {0} × (ListAllows allow_list p × All (λ x. go.match_string x p ≡ ok true) patterns)))
        (acc-ok-inj _ merged h) (λ x. (tt, x), λ x. x.1)
  merge_accumulated-AccAllows allow_list patterns i (some sp) merged p h =
      let (xs, e, f) =
        >>=-eq-ok (merge_allow_lists i sp.set_by_policy allow_list sp.allow_list) _ h in
      let l = ListAllows-merged i sp.set_by_policy allow_list sp.allow_list xs p e in
      let a = All-append_iff (λ x. go.match_string x p ≡ ok true) sp.patterns patterns in
      subst
        (λ r. AccAllows go (some r) p ↔ (
          AccAllows go (some sp) p
          × (ListAllows allow_list p × All (λ x. go.match_string x p ≡ ok true) patterns)))
        (acc-ok-inj _ merged f)
        (
          λ x. (((l.0 x.0).0, (a.0 x.1).0), ((l.0 x.0).1, (a.0 x.1).1)),
          λ x. (l.1 (x.0.0, x.1.0), a.1 (x.0.1, x.1.1)),
        )

  validate_service_provider_iff :
      (c : ConstraintContext F) (p : String)
      → (p == "") ≡ false
      → (validate_service_provider go p c ≡ ok tt) ↔ AccAllows go c.service_provider_constraints p
  unfolding validate_service_provider
  validate_service_provider_iff c p n = rw n (validate_iff go c.service_provider_constraints p)

  Allows-empty :
      (allow_list patterns : List String) (p : String)
      → are_empty allow_list patterns ≡ true
      → ListAllows allow_list p × All (λ x. go.match_string x p ≡ ok true) patterns
  unfolding are_empty
  Allows-empty [] [] p h = (tt, tt)
  Allows-empty [] (x ∷ xs) p h = absurd (cc)
  Allows-empty (a ∷ as') xs p h = absurd (cc)

  context-ok-inj :
      (x y : ConstraintContext F)
      → ◌≡◌ {A = Result String (ConstraintContext F)} (ok x) (ok y)
      → x ≡ y
  context-ok-inj x y h = cc

  AccAllows-merged :
      (sp : Option ServiceProviderConstraints) (policy_id : String) (c c' : ConstraintContext F)
      (p : String)
      → merge_sp_constraints sp policy_id c ≡ ok c'
      → AccAllows go c'.service_provider_constraints p
        ↔ (AccAllows go c.service_provider_constraints p × Allows go sp p)
  unfolding merge_sp_constraints
  AccAllows-merged none i c c' p h =
      subst
        (λ x.
          AccAllows go x.service_provider_constraints p
          ↔ (AccAllows go c.service_provider_constraints p × Unit {0}))
        (context-ok-inj c c' h) (λ x. (x, tt), λ x. x.0)
  AccAllows-merged (some sp) i c c' p h = elim (Bool-cases (are_empty sp.allow_list sp.patterns)) [
    | inl e ↦
        let same = context-ok-inj c c' (rw (e, merge_sp_constraints) at h) in
        let all = Allows-empty sp.allow_list sp.patterns p e in
        subst
          (λ x.
            AccAllows go x.service_provider_constraints p
            ↔ (AccAllows go c.service_provider_constraints p × Allows go (some sp) p))
          same (λ x. (x, all), λ x. x.0)
    | inr e ↦
        let (acc, merged, f) =
          >>=-eq-ok (merge_accumulated sp.allow_list sp.patterns i c.service_provider_constraints) _
            (rw (e, merge_sp_constraints) at h) in
        subst
          (λ x.
            AccAllows go x.service_provider_constraints p
            ↔ (AccAllows go c.service_provider_constraints p × Allows go (some sp) p))
          (context-ok-inj _ c' f)
          (merge_accumulated-AccAllows sp.allow_list sp.patterns i c.service_provider_constraints
            acc p merged)
  ]

-- The accumulated provider constraints are a conjunction: after a policy's constraints are merged, a
-- provider that is not the empty text passes validation exactly when it passed before and the policy's
-- own allow list, if it has one, contains it and all the policy's patterns match it.
pub validate_service_provider-merge_sp_constraints :
    {F : Type 0} (go : Go F) (sp : Option ServiceProviderConstraints) (policy_id provider : String)
    (c c' : ConstraintContext F)
    → (provider == "") ≡ false
    → merge_sp_constraints sp policy_id c ≡ ok c'
    → (validate_service_provider go provider c' ≡ ok tt)
      ↔ ((validate_service_provider go provider c ≡ ok tt) × Allows go sp provider)
validate_service_provider-merge_sp_constraints go sp policy_id p c c' n h =
    let before = validate_service_provider_iff go c p n in
    let after = validate_service_provider_iff go c' p n in
    let m = AccAllows-merged go sp policy_id c c' p h in
    (λ x. let (a, b) = m.0 (after.0 x) in (before.1 a, b), λ x. after.1 (m.1 (before.0 x.0, x.1)))

-- Only the accumulated provider constraints bear on a provider.
pub validate_service_provider-same :
    {F : Type 0} (go : Go F) (provider : String) (c c' : ConstraintContext F)
    → c'.service_provider_constraints ≡ c.service_provider_constraints
    → validate_service_provider go provider c' ≡ validate_service_provider go provider c
unfolding validate_service_provider
validate_service_provider-same go provider c c' e =
    ap (λ x. if provider == "" then ok tt else validate_accumulated go x provider) e
