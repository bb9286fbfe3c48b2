-- ===== src/Store/Policies/Errors/Laws.antt =====
-- internal/store/policy.go, mapUniqueConstraintError: which constraint an error names.
use mathlib.Core.List.{Perm, nil≢cons}
use mathlib.Core.List.Perm
use policy_manager.Base.{
  ◌≡◌, refl, ap, subst, ◌∙◌, ◌⊎◌, inl, inr, Bool, true, false, not, ◌&&◌, ◌||◌, ◌==◌, String, List,
  [], ◌∷◌, ok, err, Bool-cases, if◌then◌else◌,
}
use policy_manager.Base.Int.{eqb_ℤ}
use policy_manager.Base.Text.{contains_text}
use policy_manager.Store.Model.{Policy}
use policy_manager.Store.Interface.{
  StoreError, policy_id_taken, display_name_policy_type_taken, priority_policy_type_taken,
  record_not_found, database_error,
}
use policy_manager.Store.Database.{
  Condition, id_is, id_is_not, display_name_and_type_are, priority_and_type_are, DatabaseError,
  not_found, duplicated_key, other_error, Database,
}
use policy_manager.Store.Database.Relational.{meets, meets_all, select, first_of, IsRelational}
use policy_manager.Store.Policies.Errors.{
  raw, checks, not_self, is_unique_violation, check_result, run_checks, map_unique_constraint_error,
}

-- Some row meets the conditions.
abbrev pub any_meets : List Condition → List Policy → Bool
any_meets conditions [] = false
any_meets conditions (p ∷ ps) = meets_all conditions p || any_meets conditions ps

-- The sentinel of the first check that some row meets, if there is one.
abbrev pub taken :
    StoreError → List Condition → List (StoreError × Condition) → List Policy → StoreError
taken error others [] rows = error
taken error others ((sentinel, condition) ∷ rest) rows =
    if any_meets (condition ∷ others) rows then sentinel else taken error others rest rows

-- Some row has the property.
abbrev pub has : (Policy → Bool) → List Policy → Bool
has f [] = false
has f (p ∷ ps) = f p || has f ps

abbrev pub same_id : Policy → Policy → Bool
same_id a p = p.id == a.id

abbrev pub same_name : Policy → Policy → Bool
same_name a p = p.display_name == a.display_name && p.policy_type == a.policy_type

abbrev pub same_priority : Policy → Policy → Bool
same_priority a p = eqb_ℤ p.priority a.priority && p.policy_type == a.policy_type

-- The unique constraints of the table, in the order in which they are reported: a new row may share
-- nothing with any row.
abbrev pub taken_by_any : Policy → List Policy → StoreError → StoreError
taken_by_any a rows error =
    if has (same_id a) rows
    then policy_id_taken
    else if has (same_name a) rows
    then display_name_policy_type_taken
    else if has (same_priority a) rows
    then priority_policy_type_taken
    else error

-- A changed row may share nothing with the rows of other identifiers.
abbrev pub taken_by_other : Policy → List Policy → StoreError → StoreError
taken_by_other a rows error =
    if has (λ p. same_name a p && not (same_id a p)) rows
    then display_name_policy_type_taken
    else if has (λ p. same_priority a p && not (same_id a p)) rows
    then priority_policy_type_taken
    else error

-- What counts as the violation of a unique constraint.
abbrev pub is_violation : (String → String) → DatabaseError → Bool
is_violation to_lower duplicated_key = true
is_violation to_lower not_found =
    contains_text (to_lower "record not found") "unique"
    || contains_text "record not found" "duplicate key"
is_violation to_lower (other_error e) =
    contains_text (to_lower e) "unique" || contains_text e "duplicate key"

-- The error of the database itself.
abbrev pub passed_on : DatabaseError → StoreError
passed_on not_found = record_not_found
passed_on duplicated_key = database_error "duplicated key not allowed"
passed_on (other_error e) = database_error e

has-any_meets :
    (f : Policy → Bool) (cs : List Condition) (rows : List Policy)
    → ((p : Policy) → meets_all cs p ≡ f p)
    → any_meets cs rows ≡ has f rows
has-any_meets f cs [] same = refl
has-any_meets f cs (p ∷ ps) same = rw (same p) (ap (λ b. f p || b) (has-any_meets f cs ps same))

and_true : (a : Bool) → (a && true) ≡ a
and_true true = refl
and_true false = refl

has_none :
    (f : Policy → Bool) (rows : List Policy) → ((p : Policy) → f p ≡ false) → has f rows ≡ false
has_none f [] none = refl
has_none f (p ∷ ps) none = rw (none p) (has_none f ps none)

and_not : (a : Bool) → (a && (not a && true)) ≡ false
and_not true = refl
and_not false = refl

taken-cases :
    (a : Policy) (is_update : Bool) (rows : List Policy) (error : StoreError)
    → taken error (not_self a is_update) (checks a) rows
      ≡ (if is_update then taken_by_other a rows error else taken_by_any a rows error)
unfolding checks meets_all meets
taken-cases a true rows error =
    rw
      (has-any_meets (λ p. same_id a p && (not (same_id a p) && true))
          (id_is a.id ∷ id_is_not a.id ∷ []) rows (λ p. refl)
        ∙ has_none _ rows (λ p. and_not (same_id a p)))
      (rw
        (has-any_meets (λ p. same_name a p && not (same_id a p))
          (display_name_and_type_are a.display_name a.policy_type ∷ id_is_not a.id ∷ []) rows
          (λ p. ap (λ b. same_name a p && b) (and_true (not (same_id a p)))))
        (rw
          (has-any_meets (λ p. same_priority a p && not (same_id a p))
            (priority_and_type_are a.priority a.policy_type ∷ id_is_not a.id ∷ []) rows
            (λ p. ap (λ b. same_priority a p && b) (and_true (not (same_id a p)))))
          refl))
taken-cases a false rows error =
    rw (has-any_meets (same_id a) (id_is a.id ∷ []) rows (λ p. and_true (same_id a p))) (
      rw
        (has-any_meets (same_name a) (display_name_and_type_are a.display_name a.policy_type ∷ [])
          rows (λ p. and_true (same_name a p)))
        (rw
          (has-any_meets (same_priority a) (priority_and_type_are a.priority a.policy_type ∷ [])
            rows (λ p. and_true (same_priority a p)))
          refl))

raw_lem : (e : DatabaseError) → raw e ≡ passed_on e
unfolding raw
raw_lem not_found = refl
raw_lem duplicated_key = refl
raw_lem (other_error e) = refl

is_violation_lem :
    {D : Type 0} (db : Database D) (to_lower : String → String) (e : DatabaseError)
    → is_unique_violation db to_lower e ≡ is_violation to_lower e
unfolding is_unique_violation
is_violation_lem db to_lower not_found = refl
is_violation_lem db to_lower duplicated_key = refl
is_violation_lem db to_lower (other_error e) = refl

-- A query finds a row exactly when some row meets its conditions.
select-cases :
    (conditions : List Condition) (rows : List Policy)
    → ((any_meets conditions rows ≡ false) × (select conditions rows ≡ []))
      ⊎ ((any_meets conditions rows ≡ true)
          × (p : Policy) × (ps : List Policy) × (select conditions rows ≡ p ∷ ps))
unfolding select
select-cases conditions [] = inl (refl, refl)
select-cases conditions (p ∷ ps) = elim (Bool-cases (meets_all conditions p)) [
  | inl e ↦ rw e (inr (refl, p, select conditions ps, refl))
  | inr e ↦ rw e (select-cases conditions ps)
]

first-some :
    (sorted : List Policy) (p : Policy) (ps : List Policy)
    → Perm sorted (p ∷ ps)
    → (q : Policy) × (first_of sorted ≡ ok q)
first-some [] p ps h = absurd (nil≢cons (Perm.nil-eq h))
first-some (q ∷ qs) p ps h = (q, refl)

module _ {D : Type 0} (db : Database D) (to_lower : String → String)
    (relational : IsRelational db) where
  sort-nil : (rows : List Policy) → rows ≡ [] → relational.sort "id ASC" rows ≡ []
  sort-nil rows e =
      Perm.eq-nil (
        subst (λ ps. Perm (relational.sort "id ASC" rows) ps) e
          (relational.sort-perm "id ASC" rows))

  first-sorted :
      (rows : List Policy) (p : Policy) (ps : List Policy)
      → rows ≡ p ∷ ps
      → (q : Policy) × (first_of (relational.sort "id ASC" rows) ≡ ok q)
  first-sorted rows p ps e =
      first-some (relational.sort "id ASC" rows) p ps (
        subst (λ qs. Perm (relational.sort "id ASC" rows) qs) e
          (relational.sort-perm "id ASC" rows))

  first-cases :
      (conditions : List Condition) (d : D)
      → ((any_meets conditions (relational.table d) ≡ false)
          × (db.first conditions d ≡ err not_found))
        ⊎ ((any_meets conditions (relational.table d) ≡ true)
            × (p : Policy) × (db.first conditions d ≡ ok p))
  first-cases conditions d = elim (select-cases conditions (relational.table d)) [
    | inl (e, s) ↦ inl (e, relational.first-reads conditions d ∙ ap first_of (sort-nil _ s))
    | inr (e, p, ps, s) ↦
        let (q, f) = first-sorted _ p ps s in (inr (e, q, relational.first-reads conditions d ∙ f))
  ]

  run_checks-taken :
      (error : StoreError) (others : List Condition) (cs : List (StoreError × Condition)) (d : D)
      → run_checks db to_lower error others cs d ≡ taken error others cs (relational.table d)
  unfolding run_checks check_result
  run_checks-taken error others [] d = refl
  run_checks-taken error others ((s, c) ∷ cs) d = elim (first-cases (c ∷ others) d) [
    | inl (e, f) ↦ rw e (rw f (run_checks-taken error others cs d))
    | inr (e, p, f) ↦ rw e (rw f refl)
  ]

  -- Over a database that behaves as SQL documents and whose reads do not fail: an error that is
  -- gorm.ErrDuplicatedKey, or whose text has "unique" in any case or "duplicate key", is reported for a
  -- creation as the identifier that a row has, else as the display name and type that a row has, else as
  -- the priority and type that a row has, and for an update as the display name and type, else the
  -- priority and type, of a row with another identifier. If there is no such row, and for every other
  -- error, the database's error is passed on.
  pub map_unique_constraint_error-taken :
      (error : DatabaseError) (attempted : Policy) (is_update : Bool) (d : D)
      → map_unique_constraint_error db to_lower error attempted is_update d ≡ (
          if is_violation to_lower error
          then (if is_update
              then taken_by_other attempted (relational.table d) (passed_on error)
              else taken_by_any attempted (relational.table d) (passed_on error))
          else passed_on error)
  unfolding map_unique_constraint_error checks
  map_unique_constraint_error-taken error attempted is_update d =
      rw (is_violation_lem db to_lower error) (
        rw (raw_lem error) (
          ap (λ x. if is_violation to_lower error then x else passed_on error)
            (run_checks-taken (passed_on error) (not_self attempted is_update) (checks attempted) d
              ∙ taken-cases attempted is_update (relational.table d) (passed_on error))))
