-- ===== src/Store/Database/Relational.antt =====
-- What is relied on of the database: hypotheses for theorems.
use mathlib.Core.List.{Perm, Mem}
use policy_manager.Base.{
  ℕ, suc, ◌≡◌, ◌⊎◌, Bool, true, false, not, ◌&&◌, String, Option, none, some, List, [], ◌∷◌, ◌==◌,
  take, drop, contains, Result, ok, err, if◌then◌else◌,
}
use policy_manager.Base.Int.{ℤ, pos, negsuc, eqb_ℤ}
use policy_manager.Store.Model.{Policy}
use policy_manager.Store.Database.{
  Condition, id_is, id_is_not, policy_type_is, enabled_is, display_name_and_type_are,
  priority_and_type_are, DatabaseError, not_found, Database,
}

abbrev bool_eq : Bool → Bool → Bool
bool_eq true b = b
bool_eq false b = not b

-- The meaning of a condition in SQL.
unfoldable pub meets : Condition → Policy → Bool
meets (id_is id) p = p.id == id
meets (id_is_not id) p = not (p.id == id)
meets (policy_type_is t) p = p.policy_type == t
meets (enabled_is b) p = bool_eq b p.enabled
meets (display_name_and_type_are n t) p = p.display_name == n && p.policy_type == t
meets (priority_and_type_are z t) p = eqb_ℤ p.priority z && p.policy_type == t

unfoldable pub meets_all : List Condition → Policy → Bool
meets_all [] p = true
meets_all (c ∷ cs) p = meets c p && meets_all cs p

unfoldable pub select : List Condition → List Policy → List Policy
select cs [] = []
select cs (p ∷ ps) = if meets_all cs p then p ∷ select cs ps else select cs ps

abbrev pub limited : Option ℤ → List Policy → List Policy
limited none rows = rows
limited (some (pos k)) rows = take k rows
limited (some (negsuc k)) rows = rows

abbrev pub first_of : List Policy → Result DatabaseError Policy
first_of [] = err not_found
first_of (p ∷ ps) = ok p

-- The orders that tell any two rows apart, since the identifier is the primary key.
abbrev pub IsTotal : String → Type 0
IsTotal order = (order ≡ "id ASC") ⊎ (order ≡ "policy_type ASC, priority ASC, id ASC")

-- The database holds a table, and its reads do not fail. A query answers with the rows that meet its
-- conditions, in an order that its ORDER BY allows, from its offset on, as many as its limit. Where the
-- ORDER BY leaves ties, each query may order them in another way; where it is total, all queries have
-- the same order.
pub record IsRelational {D : Type 0} (db : Database D) : Type 0 where
  pub table : D → List Policy
  pub sort : String → List Policy → List Policy
  pub sort-perm : (order : String) (rows : List Policy) → Perm (sort order rows) rows
  pub find-reads :
      (conditions : List Condition) (order : String) (limit : Option ℤ) (n : ℕ) (d : D)
      → IsTotal order
      → db.find (record { conditions = conditions; order = order; limit = limit; offset = pos n }) d
        ≡ ok (limited limit (drop n (sort order (select conditions (table d)))))
  -- Whether the rows stand in an order that the ORDER BY allows.
  pub is_ordered : String → List Policy → Bool
  pub find-orders :
      (conditions : List Condition) (order : String) (limit : Option ℤ) (n : ℕ) (d : D)
      → (rows : List Policy) × Perm rows (select conditions (table d))
        × (is_ordered order rows ≡ true)
        × (db.find
              (record { conditions = conditions; order = order; limit = limit; offset = pos n })
              d
            ≡ ok (limited limit (drop n rows)))
  pub first-reads :
      (conditions : List Condition) (d : D)
      → db.first conditions d ≡ first_of (sort "id ASC" (select conditions (table d)))

-- A row with the selected columns of another one and a new update time.
unfoldable pub written : List String → Policy → ℕ → Policy → Policy
written columns p now row = record row {
  display_name = if contains columns "display_name" then p.display_name else row.display_name;
  description = if contains columns "description" then p.description else row.description;
  label_selector =
      if contains columns "label_selector" then p.label_selector else row.label_selector;
  priority = if contains columns "priority" then p.priority else row.priority;
  rego_code = if contains columns "rego_code" then p.rego_code else row.rego_code;
  enabled = if contains columns "enabled" then p.enabled else row.enabled;
  update_time = now;
}

-- The row with an identifier is written, the others stay.
abbrev pub rewritten : List String → Policy → ℕ → List Policy → List Policy
rewritten columns p now [] = []
rewritten columns p now (r ∷ rs) =
    (if r.id == p.id then written columns p now r else r) ∷ rewritten columns p now rs

-- The rows with an identifier are gone, the others stay.
abbrev pub without : String → List Policy → List Policy
without id [] = []
without id (r ∷ rs) = if r.id == id then without id rs else r ∷ without id rs

-- A statement that fails changes nothing. Deleting the row that has just been inserted undoes the
-- insertion. An update writes the selected columns of the row with the identifier, and a deletion
-- by the identifier removes the row that has it. The identifier is the primary key. The
-- values that a row had before its update can be written back.
pub record IsWritable {D : Type 0} (db : Database D) (relational : IsRelational db) : Type 0 where
  pub insert-fails :
      (p : Policy) (d : D) (e : DatabaseError) → (db.insert p d).0 ≡ err e → (db.insert p d).1 ≡ d
  pub insert-undone :
      (p : Policy) (d : D) (row : Policy)
      → (db.insert p d).0 ≡ ok row
      → db.delete_where (id_is p.id ∷ []) (db.insert p d).1 ≡ (ok 1, d)
  pub update-fails :
      (columns : List String) (p : Policy) (d : D) (e : DatabaseError)
      → (db.update_columns columns p d).0 ≡ err e
      → (db.update_columns columns p d).1 ≡ d
  pub update_none :
      (columns : List String) (p row : Policy) (d : D)
      → (db.update_columns columns p d).0 ≡ ok (0, row)
      → (db.update_columns columns p d).1 ≡ d
  pub update-writes :
      (columns : List String) (p row : Policy) (n : ℕ) (d : D)
      → (db.update_columns columns p d).0 ≡ ok (suc n, row)
      → (now : ℕ) × (relational.sort "id ASC" (relational.table (db.update_columns columns p d).1)
          ≡ rewritten columns p now (relational.sort "id ASC" (relational.table d)))
  pub delete-fails :
      (id : String) (d : D) (e : DatabaseError)
      → (db.delete_where (id_is id ∷ []) d).0 ≡ err e
      → (db.delete_where (id_is id ∷ []) d).1 ≡ d
  pub delete_none :
      (id : String) (d : D)
      → (db.delete_where (id_is id ∷ []) d).0 ≡ ok 0
      → (db.delete_where (id_is id ∷ []) d).1 ≡ d
  pub delete-writes :
      (id : String) (n : ℕ) (d : D)
      → (db.delete_where (id_is id ∷ []) d).0 ≡ ok (suc n)
      → relational.sort "id ASC" (relational.table (db.delete_where (id_is id ∷ []) d).1)
        ≡ without id (relational.sort "id ASC" (relational.table d))
  pub primary_key :
      (d : D) (p q : Policy)
      → Mem p (relational.table d)
      → Mem q (relational.table d)
      → p.id ≡ q.id
      → p ≡ q
  pub update_back :
      (columns : List String) (p row stored : Policy) (n : ℕ) (d : D)
      → db.first (id_is p.id ∷ []) d ≡ ok row
      → (db.update_columns columns p d).0 ≡ ok (suc n, stored)
      → (m : ℕ) × (again : Policy) × ((db.update_columns columns row
            (db.update_columns columns p d).1).0
          ≡ ok (suc m, again))
