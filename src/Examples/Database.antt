-- ===== src/Examples/Database.antt =====
-- Databases in memory: a list of rows to read, and a table with at most one row to write.
use mathlib.Core.List.Perm
use mathlib.Core.List.{Mem, not-mem-nil, mem-singleton}
use text.Mathlib.TextEquality.{IsScalar-prop}
use policy_manager.Base.{
  ℕ, suc, ◌≡◌, refl, sym, ◌∙◌, Bool, true, false, Bool-cases, inl, inr, String, Option, none, some,
  List, [], ◌∷◌, ◌==◌, eq_refl, drop, Result, ok, err, if◌then◌else◌, ◌&&◌,
}
use policy_manager.Base.Int.{ℤ, pos, negsuc}
use policy_manager.Store.Model.{Policy}
use policy_manager.Store.Database.{
  Condition, id_is, DatabaseError, duplicated_key, other_error, Query, Database,
}
use policy_manager.Store.Database.Relational.{
  meets, meets_all, select, limited, first_of, written, rewritten, without, IsRelational,
  IsWritable,
}

abbrev skipped : ℤ → List Policy → List Policy
skipped (pos n) rows = drop n rows
skipped (negsuc n) rows = rows

abbrev found : List Policy → Query → Result DatabaseError (List Policy)
found rows q = ok (limited q.limit (skipped q.offset (select q.conditions rows)))

-- A list of rows that no statement changes.
abbrev pub rows_database : Database (List Policy)
rows_database = record {
  find = λ q d. found d q;
  first = λ cs d. first_of (select cs d);
  insert = λ p d. (err (other_error "read-only"), d);
  delete_where = λ cs d. (err (other_error "read-only"), d);
  update_columns = λ cs p d. (err (other_error "read-only"), d);
}

abbrev pub rows_database-IsRelational : IsRelational rows_database
rows_database-IsRelational = record {
  table = λ d. d;
  sort = λ order rows. rows;
  sort-perm = λ order rows. Perm.refl rows;
  find-reads = λ cs order limit n d total. refl;
  is_ordered = λ order rows. true;
  find-orders = λ cs order limit n d. (select cs d, Perm.refl (select cs d), refl, refl);
  first-reads = λ cs d. refl;
}

abbrev pub rows_of : Option Policy → List Policy
rows_of none = []
rows_of (some q) = q ∷ []

abbrev insert_one : Policy → Option Policy → Result DatabaseError Policy × Option Policy
insert_one p none = (ok p, some p)
insert_one p (some q) = (err duplicated_key, some q)

abbrev delete_one : List Condition → Option Policy → Result DatabaseError ℕ × Option Policy
delete_one cs none = (ok 0, none)
delete_one cs (some q) = if meets_all cs q then (ok 1, none) else (ok 0, some q)

abbrev update_one :
    List String → Policy → Option Policy → Result DatabaseError (ℕ × Policy) × Option Policy
update_one columns p none = (ok (0, p), none)
update_one columns p (some q) =
    if q.id == p.id
    then (ok (1, written columns p 7 q), some (written columns p 7 q))
    else (ok (0, p), some q)

-- A table with at most one row, at the time 7.
abbrev pub row_database : Database (Option Policy)
row_database = record {
  find = λ q d. found (rows_of d) q;
  first = λ cs d. first_of (select cs (rows_of d));
  insert = insert_one;
  delete_where = delete_one;
  update_columns = update_one;
}

abbrev pub row_database-IsRelational : IsRelational row_database
row_database-IsRelational = record {
  table = rows_of;
  sort = λ order rows. rows;
  sort-perm = λ order rows. Perm.refl rows;
  find-reads = λ cs order limit n d total. refl;
  is_ordered = λ order rows. true;
  find-orders =
      λ cs order limit n d. (select cs (rows_of d), Perm.refl (select cs (rows_of d)), refl, refl);
  first-reads = λ cs d. refl;
}

insert_one-fails :
    (p : Policy) (d : Option Policy) (e : DatabaseError)
    → (insert_one p d).0 ≡ err e
    → (insert_one p d).1 ≡ d
insert_one-fails p none e h = cc
insert_one-fails p (some q) e h = refl

meets_own : (p : Policy) → meets_all (id_is p.id ∷ []) p ≡ true
unfolding meets_all meets
meets_own p = rw (eq_refl p.id) refl

insert_one-undone :
    (p : Policy) (d : Option Policy) (row : Policy)
    → (insert_one p d).0 ≡ ok row
    → delete_one (id_is p.id ∷ []) (insert_one p d).1 ≡ (ok 1, d)
insert_one-undone p none row h = rw (meets_own p) refl
insert_one-undone p (some q) row h = cc

delete_one-fails :
    (id : String) (d : Option Policy) (e : DatabaseError)
    → (delete_one (id_is id ∷ []) d).0 ≡ err e
    → (delete_one (id_is id ∷ []) d).1 ≡ d
delete_one-fails id none e h = refl
delete_one-fails id (some q) e h = elim (Bool-cases (meets_all (id_is id ∷ []) q)) [
  | inl k ↦ let h' = rw k at h in cc
  | inr k ↦ rw k refl
]

delete_one-none :
    (id : String) (d : Option Policy)
    → (delete_one (id_is id ∷ []) d).0 ≡ ok 0
    → (delete_one (id_is id ∷ []) d).1 ≡ d
delete_one-none id none h = refl
delete_one-none id (some q) h = elim (Bool-cases (meets_all (id_is id ∷ []) q)) [
  | inl k ↦ let h' = rw k at h in cc
  | inr k ↦ rw k refl
]

meets-eq :
    (id : String) (q : Policy) (b : Bool) → meets_all (id_is id ∷ []) q ≡ b → (q.id == id) ≡ b
unfolding meets_all meets
meets-eq id q b h = and_true (q.id == id) ∙ h
  where
    and_true : (a : Bool) → a ≡ (a && true)
    and_true true = refl
    and_true false = refl

delete_one-writes :
    (id : String) (n : ℕ) (d : Option Policy)
    → (delete_one (id_is id ∷ []) d).0 ≡ ok (suc n)
    → rows_of (delete_one (id_is id ∷ []) d).1 ≡ without id (rows_of d)
delete_one-writes id n none h = refl
delete_one-writes id n (some q) h = elim (Bool-cases (meets_all (id_is id ∷ []) q)) [
  | inl k ↦ rw (k, meets-eq id q true k) refl
  | inr k ↦ let h' = rw k at h in cc
]

update_one-fails :
    (columns : List String) (p : Policy) (d : Option Policy) (e : DatabaseError)
    → (update_one columns p d).0 ≡ err e
    → (update_one columns p d).1 ≡ d
update_one-fails columns p none e h = refl
update_one-fails columns p (some q) e h = elim (Bool-cases (q.id == p.id)) [
  | inl k ↦ let h' = rw k at h in cc
  | inr k ↦ rw k refl
]

update_one-none :
    (columns : List String) (p row : Policy) (d : Option Policy)
    → (update_one columns p d).0 ≡ ok (0, row)
    → (update_one columns p d).1 ≡ d
update_one-none columns p row none h = refl
update_one-none columns p row (some q) h = elim (Bool-cases (q.id == p.id)) [
  | inl k ↦ let h' = rw k at h in cc
  | inr k ↦ rw k refl
]

update_one-writes :
    (columns : List String) (p row : Policy) (n : ℕ) (d : Option Policy)
    → (update_one columns p d).0 ≡ ok (suc n, row)
    → (now : ℕ) × (rows_of (update_one columns p d).1 ≡ rewritten columns p now (rows_of d))
update_one-writes columns p row n none h = cc
update_one-writes columns p row n (some q) h = elim (Bool-cases (q.id == p.id)) [
  | inl k ↦ (7, rw k refl)
  | inr k ↦ let h' = rw k at h in cc
]

Policy-set : IsSet Policy
Policy-set = hlevel IsScalar-prop

mem-single : {p r : Policy} → Mem p (r ∷ []) → p ≡ r
mem-single m = (mem-singleton Policy-set).0 m

only_row :
    (d : Option Policy) (p q : Policy) → Mem p (rows_of d) → Mem q (rows_of d) → p.id ≡ q.id → p ≡ q
only_row none p q m k e = absurd (not-mem-nil m)
only_row (some r) p q m k e = mem-single m ∙ sym (mem-single k)

first-eq :
    (id : String) (q row : Policy) → first_of (select (id_is id ∷ []) (q ∷ [])) ≡ ok row → row ≡ q
unfolding select
first-eq id q row h = elim (Bool-cases (meets_all (id_is id ∷ []) q)) [
  | inl k ↦ let h' = rw k at h in cc
  | inr k ↦ let h' = rw k at h in cc
]

-- A row that has been written keeps its identifier.
written-id :
    (columns : List String) (p q row : Policy)
    → row ≡ q
    → ((written columns p 7 q).id == row.id) ≡ true
unfolding written
written-id columns p q row same = rw same (eq_refl q.id)

update_one_back :
    (columns : List String) (p row stored : Policy) (n : ℕ) (d : Option Policy)
    → first_of (select (id_is p.id ∷ []) (rows_of d)) ≡ ok row
    → (update_one columns p d).0 ≡ ok (suc n, stored)
    → (m : ℕ) × (again : Policy) × ((update_one columns row (update_one columns p d).1).0
        ≡ ok (suc m, again))
update_one_back columns p row stored n none f h = cc
update_one_back columns p row stored n (some q) f h = elim (Bool-cases (q.id == p.id)) [
  | inl k ↦ rw k (
      rw (written-id columns p q row (first-eq p.id q row f))
        (0, written columns row 7 (written columns p 7 q), refl))
  | inr k ↦ let h' = rw k at h in cc
]

pub row_database-IsWritable : IsWritable row_database row_database-IsRelational
row_database-IsWritable = record {
  insert-fails = insert_one-fails;
  insert-undone = insert_one-undone;
  update-fails = update_one-fails;
  update_none = update_one-none;
  update-writes = update_one-writes;
  delete-fails = delete_one-fails;
  delete_none = delete_one-none;
  delete-writes = delete_one-writes;
  primary_key = only_row;
  update_back = update_one_back;
}
