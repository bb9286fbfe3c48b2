-- ===== src/Store/Policies/Writes.antt =====
-- What the writes of the store leave, in the terms of the database's calls.
use policy_manager.Base.{
  inl, ℕ, zero, suc, ◌≡◌, refl, ap, ◌∙◌, String, none, List, [], ◌∷◌, Result, ok, err, map_err,
}
use policy_manager.Store.Model.{Policy}
use policy_manager.Store.Interface.{StoreError}
use policy_manager.Store.Database.{id_is, DatabaseError, Database}
use policy_manager.Store.Database.Relational.{select, meets_all, IsRelational, IsWritable}
use policy_manager.Store.Policies.{
  updated_columns, inserted, create, deleted, delete, updated, update, list_all, get_error, get,
}

module _ {D : Type 0} (db : Database D) (to_lower : String → String) (relational : IsRelational db)
    (writable : IsWritable db relational) where
  inserted-fails :
      (p : Policy) (d : D) (x : Result DatabaseError Policy × D) (e : StoreError)
      → ((c : DatabaseError) → x.0 ≡ err c → x.1 ≡ d)
      → (inserted db to_lower p d x).0 ≡ err e
      → (inserted db to_lower p d x).1 ≡ d
  unfolding inserted
  inserted-fails p d (ok row, d') e fails h = cc
  inserted-fails p d (err c, d') e fails h = fails c refl

  pub create-fails :
      (p : Policy) (d : D) (e : StoreError)
      → (create db to_lower p d).0 ≡ err e
      → (create db to_lower p d).1 ≡ d
  unfolding create
  create-fails p d e h = inserted-fails p d (db.insert p d) e (writable.insert-fails p d) h

  inserted-ok :
      (p : Policy) (d : D) (x : Result DatabaseError Policy × D) (row : Policy)
      → (inserted db to_lower p d x).0 ≡ ok row
      → (x.0 ≡ ok row) × ((inserted db to_lower p d x).1 ≡ x.1)
  unfolding inserted
  inserted-ok p d (ok r, d') row h = (cc, refl)
  inserted-ok p d (err c, d') row h = cc

  pub delete-create :
      (p : Policy) (d : D) (row : Policy)
      → (create db to_lower p d).0 ≡ ok row
      → (delete db to_lower p.id (create db to_lower p d).1).1 ≡ d
  unfolding create delete deleted
  delete-create p d row h =
      let (stored, same) = inserted-ok p d (db.insert p d) row h in
      ap (λ k. (deleted db to_lower (db.delete_where (id_is p.id ∷ []) k)).1) same
      ∙ ap (λ x. (deleted db to_lower x).1) (writable.insert-undone p d row stored)

  updated-fails :
      (p : Policy) (d : D) (x : Result DatabaseError (ℕ × Policy) × D) (e : StoreError)
      → ((c : DatabaseError) → x.0 ≡ err c → x.1 ≡ d)
      → ((row : Policy) → x.0 ≡ ok (0, row) → x.1 ≡ d)
      → (updated db to_lower p x).0 ≡ err e
      → (updated db to_lower p x).1 ≡ d
  unfolding updated
  updated-fails p d (ok (zero, row), d') e fails nothing h = nothing row refl
  updated-fails p d (ok (suc n, row), d') e fails nothing h = cc
  updated-fails p d (err c, d') e fails nothing h = fails c refl

  pub update-fails :
      (p : Policy) (d : D) (e : StoreError)
      → (update db to_lower p d).0 ≡ err e
      → (update db to_lower p d).1 ≡ d
  unfolding update
  update-fails p d e h =
      updated-fails p d (db.update_columns updated_columns p d) e
        (writable.update-fails updated_columns p d)
        (λ row. writable.update_none updated_columns p row d) h

  updated-ok :
      (p : Policy) (x : Result DatabaseError (ℕ × Policy) × D) (row : Policy)
      → (updated db to_lower p x).0 ≡ ok row
      → (n : ℕ) × (x.0 ≡ ok (suc n, row)) × ((updated db to_lower p x).1 ≡ x.1)
  unfolding updated
  updated-ok p (ok (zero, r), d') row h = cc
  updated-ok p (ok (suc n, r), d') row h = (n, cc, refl)
  updated-ok p (err c, d') row h = cc

  pub update-eq-ok :
      (p : Policy) (d : D) (row : Policy)
      → (update db to_lower p d).0 ≡ ok row
      → (n : ℕ) × ((db.update_columns updated_columns p d).0 ≡ ok (suc n, row))
        × ((update db to_lower p d).1 ≡ (db.update_columns updated_columns p d).1)
  unfolding update
  update-eq-ok p d row h = updated-ok p (db.update_columns updated_columns p d) row h

  updated-some :
      (p : Policy) (x : Result DatabaseError (ℕ × Policy) × D) (n : ℕ) (row : Policy)
      → x.0 ≡ ok (suc n, row)
      → (updated db to_lower p x).0 ≡ ok row
  unfolding updated
  updated-some p x n row h = rw h refl

  pub update_ok :
      (p : Policy) (d : D) (n : ℕ) (row : Policy)
      → (db.update_columns updated_columns p d).0 ≡ ok (suc n, row)
      → (update db to_lower p d).0 ≡ ok row
  unfolding update
  update_ok p d n row h = updated-some p (db.update_columns updated_columns p d) n row h

  select-nil : (rows : List Policy) → select [] rows ≡ rows
  unfolding select meets_all
  select-nil [] = refl
  select-nil (p ∷ ps) = ap (λ qs. p ∷ qs) (select-nil ps)

  pub list_all-eq-ok :
      (d : D) → list_all db to_lower d ≡ ok (relational.sort "id ASC" (relational.table d))
  unfolding list_all
  list_all-eq-ok d =
      rw (relational.find-reads [] "id ASC" none 0 d (inl refl))
        (ap (λ rows. ok (relational.sort "id ASC" rows)) (select-nil (relational.table d)))

  get-eq-ok :
      (x : Result DatabaseError Policy) (row : Policy)
      → map_err (get_error db to_lower) x ≡ ok row
      → x ≡ ok row
  get-eq-ok (ok r) row h = cc
  get-eq-ok (err c) row h = cc

  pub first_of_get :
      (id : String) (d : D) (row : Policy)
      → get db to_lower id d ≡ ok row
      → db.first (id_is id ∷ []) d ≡ ok row
  unfolding get
  first_of_get id d row h = get-eq-ok (db.first (id_is id ∷ []) d) row h
