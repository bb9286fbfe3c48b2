-- ===== src/Service/Policies/Operations/Stored.antt =====
-- internal/service/policy.go over internal/store/policy.go: the laws of the service's store.
use mathlib.Core.List.{Mem, mem-cons_self, mem-cons_of_mem}
use policy_manager.Base.{
  ℕ, ◌≡◌, refl, sym, ap, ◌∙◌, subst, String, List, [], ◌∷◌, map, ◌==◌, eq_iff, Result, ok,
  Bool-cases, inl, inr, if◌then◌else◌,
}
use policy_manager.Store.Model.{Policy}
use policy_manager.Store.Interface.{StoreError}
use policy_manager.Store.Database.{Database, id_is}
use policy_manager.Store.Database.Relational.{written, rewritten, without, IsRelational, IsWritable}
use policy_manager.Store.Policies.{new_policy, updated_columns, list_all, get, update, delete}
use policy_manager.Store.Policies.Keys.{first-key}
use policy_manager.Store.Policies.Deletes.{delete-fails, delete-eq-ok}
use policy_manager.Store.Policies.Writes.{
  create-fails, delete-create, update-fails, update-eq-ok, update_ok, list_all-eq-ok, first_of_get,
}
use policy_manager.Service.Policies.Operations.{module_of}
use policy_manager.Service.Policies.Operations.Laws.{IsTransactional}
use policy_manager.Service.Policies.Operations.Updates.{set_code, IsTable}
use policy_manager.Service.Policies.Operations.Deletes.{remove, IsErasable}

-- The update of one row is seen as a change of code, since the columns have the code.
module_of-written :
    (p : Policy) (now : ℕ) (r : Policy)
    → module_of (if r.id == p.id then written updated_columns p now r else r)
      ≡ (if r.id == p.id then record (module_of r) { rego_code = p.rego_code } else module_of r)
unfolding written
module_of-written p now r = elim (Bool-cases (r.id == p.id)) [
  | inl e ↦ rw e refl
  | inr e ↦ rw e refl
]

modules-rewritten :
    (p : Policy) (now : ℕ) (rows : List Policy)
    → map module_of (rewritten updated_columns p now rows)
      ≡ set_code p.id p.rego_code (map module_of rows)
modules-rewritten p now [] = refl
modules-rewritten p now (r ∷ rs) = λ i. module_of-written p now r i ∷ modules-rewritten p now rs i

-- A row that has its code already is not changed.
module_fixed :
    (id code : String) (q : Policy)
    → (q.id ≡ id → q.rego_code ≡ code)
    → (if q.id == id then record (module_of q) { rego_code = code } else module_of q) ≡ module_of q
module_fixed id code q h = elim (Bool-cases (q.id == id)) [
  | inl e ↦ rw e (λ i. record (module_of q) { rego_code = sym (h ((eq_iff q.id id).0 e)) i })
  | inr e ↦ rw e refl
]

set_code-fixed :
    (id code : String) (rows : List Policy)
    → ((q : Policy) → Mem q rows → q.id ≡ id → q.rego_code ≡ code)
    → set_code id code (map module_of rows) ≡ map module_of rows
set_code-fixed id code [] h = refl
set_code-fixed id code (q ∷ qs) h = λ i.
    module_fixed id code q (h q mem-cons_self) i
    ∷ set_code-fixed id code qs (λ r m. h r (mem-cons_of_mem q m)) i

modules-without :
    (id : String) (rows : List Policy)
    → map module_of (without id rows) ≡ remove id (map module_of rows)
modules-without id [] = refl
modules-without id (r ∷ rs) = elim (Bool-cases (r.id == id)) [
  | inl e ↦ rw e (modules-without id rs)
  | inr e ↦ rw e (ap (λ ms. module_of r ∷ ms) (modules-without id rs))
]

rows_injective :
    {a b : List Policy} → ◌≡◌ {A = Result StoreError (List Policy)} (ok a) (ok b) → a ≡ b
rows_injective h = cc

module _ {D : Type 0} (db : Database D) (to_lower : String → String) (relational : IsRelational db)
    (writable : IsWritable db relational) where
  -- Over a database that behaves as SQL documents, creations are transactional.
  pub new_policy-IsTransactional : IsTransactional (new_policy db to_lower)
  new_policy-IsTransactional = record {
    create-fails = create-fails db to_lower relational writable;
    create-undone = delete-create db to_lower relational writable;
  }

  listed :
      (d : D) (rows : List Policy)
      → list_all db to_lower d ≡ ok rows
      → relational.sort "id ASC" (relational.table d) ≡ rows
  listed d rows h = rows_injective (sym (list_all-eq-ok db to_lower relational writable d) ∙ h)

  update-writes :
      (p : Policy) (d : D) (row : Policy) (rows : List Policy)
      → (update db to_lower p d).0 ≡ ok row
      → list_all db to_lower d ≡ ok rows
      → (rows' : List Policy) × (list_all db to_lower (update db to_lower p d).1 ≡ ok rows')
        × (map module_of rows' ≡ set_code p.id p.rego_code (map module_of rows))
  update-writes p d row rows h k =
      let (n, wrote, same) = update-eq-ok db to_lower relational writable p d row h in
      let (now, sorted) = writable.update-writes updated_columns p row n d wrote in
      (
        rewritten updated_columns p now rows,
        ap (list_all db to_lower) same
            ∙ list_all-eq-ok db to_lower relational writable
                (db.update_columns updated_columns p d).1
            ∙ ap (λ rs. ok rs) (sorted ∙ ap (rewritten updated_columns p now) (listed d rows k)),
        modules-rewritten p now rows,
      )

  get-reads :
      (id : String) (d : D) (row : Policy) (rows : List Policy)
      → get db to_lower id d ≡ ok row
      → list_all db to_lower d ≡ ok rows
      → (row.id ≡ id) × (set_code id row.rego_code (map module_of rows) ≡ map module_of rows)
  get-reads id d row rows h k =
      let (same_id, only) =
        first-key db relational writable id d row
          (first_of_get db to_lower relational writable id d row h) in
      (
        same_id,
        set_code-fixed id row.rego_code rows (λ q m e.
            ap (λ r. r.rego_code) (only q (subst (λ rs. Mem q rs) (sym (listed d rows k)) m) e)),
      )

  update-restores :
      (p : Policy) (d : D) (row stored : Policy)
      → get db to_lower p.id d ≡ ok row
      → (update db to_lower p d).0 ≡ ok stored
      → (again : Policy) × ((update db to_lower row (update db to_lower p d).1).0 ≡ ok again)
  update-restores p d row stored h k =
      let (n, wrote, same) = update-eq-ok db to_lower relational writable p d stored k in
      let (m, again, wrote_back) =
        writable.update_back updated_columns p row stored n d
          (first_of_get db to_lower relational writable p.id d row h) wrote in
      (
        again,
        ap (λ k. (update db to_lower row k).0) same
            ∙ update_ok db to_lower relational writable row
                (db.update_columns updated_columns p d).1 m again wrote_back,
      )

  -- Over a database that behaves as SQL documents, the store behaves as a table of policies: an update
  -- that succeeds changes the code of the row with its identifier and of no other, a read returns the
  -- one row with the identifier, and a row that has been replaced can be written again.
  pub new_policy-IsTable : IsTable (new_policy db to_lower)
  new_policy-IsTable = record {
    update-fails = update-fails db to_lower relational writable;
    update-writes = update-writes;
    get-reads = get-reads;
    update-restores = update-restores;
  }

  delete-writes :
      (id : String) (d : D) (rows : List Policy)
      → (delete db to_lower id d).0 ≡ ok tt
      → list_all db to_lower d ≡ ok rows
      → (rows' : List Policy) × (list_all db to_lower (delete db to_lower id d).1 ≡ ok rows')
        × (map module_of rows' ≡ remove id (map module_of rows))
  delete-writes id d rows h k =
      let (n, wrote, same) = delete-eq-ok db to_lower relational writable id d h in
      (
        without id rows,
        ap (list_all db to_lower) same
            ∙ list_all-eq-ok db to_lower relational writable (db.delete_where (id_is id ∷ []) d).1
            ∙ ap (λ rs. ok rs)
                (writable.delete-writes id n d wrote ∙ ap (without id) (listed d rows k)),
        modules-without id rows,
      )

  -- A deletion removes the row with its identifier, or fails and changes nothing.
  pub new_policy-IsErasable : IsErasable (new_policy db to_lower)
  new_policy-IsErasable = record {
    delete-fails = delete-fails db to_lower relational writable;
    delete-writes = delete-writes;
  }
