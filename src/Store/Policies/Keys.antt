-- ===== src/Store/Policies/Keys.antt =====
-- internal/store/policy.go, Get: the rows with an identifier.
use mathlib.Core.Bool.{Bool-set}
use mathlib.Core.List.{Mem, Mem-prop, not-mem-nil, mem-cons, mem-cons_self, mem-cons_of_mem}
use mathlib.Core.List.Perm
use mathlib.Core.Logic.Or
use policy_manager.Base.{
  ◌≡◌, refl, sym, ◌∙◌, Bool, true, false, ◌&&◌, String, List, [], ◌∷◌, ◌==◌, eq_iff, ok, Bool-cases,
  inl, inr,
}
use policy_manager.Store.Model.{Policy}
use policy_manager.Store.Database.{Condition, id_is, Database}
use policy_manager.Store.Database.Relational.{
  meets, meets_all, select, first_of, IsRelational, IsWritable,
}

pub mem-select :
    (conditions : List Condition) (p : Policy) (rows : List Policy)
    → Mem p (select conditions rows)
    → Mem p rows
unfolding select
mem-select conditions p [] m = m
mem-select conditions p (q ∷ qs) m = elim (Bool-cases (meets_all conditions q)) [
  | inl e ↦
      Or.elim Mem-prop (mem-cons.0 (rw (e, select) at m)) (λ same. rw same mem-cons_self)
        (λ later. mem-cons_of_mem q (mem-select conditions p qs later))
  | inr e ↦ mem-cons_of_mem q (mem-select conditions p qs (rw (e, select) at m))
]

meets_all-select :
    (conditions : List Condition) (p : Policy) (rows : List Policy)
    → Mem p (select conditions rows)
    → meets_all conditions p ≡ true
unfolding select
meets_all-select conditions p [] m = absurd (not-mem-nil m)
meets_all-select conditions p (q ∷ qs) m = elim (Bool-cases (meets_all conditions q)) [
  | inl e ↦
      Or.elim (Bool-set _ _) (mem-cons.0 (rw (e, select) at m)) (λ same. rw same e)
        (λ later. meets_all-select conditions p qs later)
  | inr e ↦ meets_all-select conditions p qs (rw (e, select) at m)
]

mem-first_of : (rows : List Policy) (p : Policy) → first_of rows ≡ ok p → Mem p rows
mem-first_of [] p h = cc
mem-first_of (q ∷ qs) p h = let same : q ≡ p = cc in rw (← same) mem-cons_self

meets-id_is : (id : String) (p : Policy) → meets_all (id_is id ∷ []) p ≡ true → p.id ≡ id
unfolding meets_all meets
meets-id_is id p h = (eq_iff p.id id).0 (and_left (p.id == id) true h)
  where
    and_left : (a b : Bool) → (a && b) ≡ true → a ≡ true
    and_left true b h = refl
    and_left false b h = cc

module _ {D : Type 0} (db : Database D) (relational : IsRelational db)
    (writable : IsWritable db relational) where
  mem-first :
      (conditions : List Condition) (d : D) (row : Policy)
      → db.first conditions d ≡ ok row
      → Mem row (select conditions (relational.table d))
  mem-first conditions d row h =
      let rows = select conditions (relational.table d) in
      (Perm.mem_iff (relational.sort-perm "id ASC" rows)).0 (
        mem-first_of (relational.sort "id ASC" rows) row
          (sym (relational.first-reads conditions d) ∙ h))

  -- The row has the identifier, and each row with it is that row.
  pub first-key :
      (id : String) (d : D) (row : Policy)
      → db.first (id_is id ∷ []) d ≡ ok row
      → (row.id ≡ id)
        × ((q : Policy)
            → Mem q (relational.sort "id ASC" (relational.table d))
            → q.id ≡ id
            → q ≡ row)
  first-key id d row h =
      let found = mem-first (id_is id ∷ []) d row h in
      let same_id =
        meets-id_is id row (meets_all-select (id_is id ∷ []) row (relational.table d) found) in
      (
        same_id,
        λ q m e.
            writable.primary_key d q row
              ((Perm.mem_iff (relational.sort-perm "id ASC" (relational.table d))).0 m)
              (mem-select (id_is id ∷ []) row (relational.table d) found) (e ∙ sym same_id),
      )
