-- ===== src/Store/Policies/Deletes.antt =====
-- What a deletion by the store leaves, in the terms of the database's calls.
use policy_manager.Base.{ℕ, zero, suc, ◌≡◌, refl, String, [], ◌∷◌, Result, ok, err}
use policy_manager.Store.Interface.{StoreError}
use policy_manager.Store.Database.{id_is, DatabaseError, Database}
use policy_manager.Store.Database.Relational.{IsRelational, IsWritable}
use policy_manager.Store.Policies.{deleted, delete}

module _ {D : Type 0} (db : Database D) (to_lower : String → String) (relational : IsRelational db)
    (writable : IsWritable db relational) where
  deleted-fails :
      (d : D) (x : Result DatabaseError ℕ × D) (e : StoreError)
      → ((c : DatabaseError) → x.0 ≡ err c → x.1 ≡ d)
      → (x.0 ≡ ok 0 → x.1 ≡ d)
      → (deleted db to_lower x).0 ≡ err e
      → (deleted db to_lower x).1 ≡ d
  unfolding deleted
  deleted-fails d (ok zero, d') e fails nothing h = nothing refl
  deleted-fails d (ok (suc n), d') e fails nothing h = cc
  deleted-fails d (err c, d') e fails nothing h = fails c refl

  deleted-ok :
      (x : Result DatabaseError ℕ × D)
      → (deleted db to_lower x).0 ≡ ok tt
      → (n : ℕ) × (x.0 ≡ ok (suc n)) × ((deleted db to_lower x).1 ≡ x.1)
  unfolding deleted
  deleted-ok (ok zero, d') h = cc
  deleted-ok (ok (suc n), d') h = (n, refl, refl)
  deleted-ok (err c, d') h = cc

  pub delete-fails :
      (id : String) (d : D) (e : StoreError)
      → (delete db to_lower id d).0 ≡ err e
      → (delete db to_lower id d).1 ≡ d
  unfolding delete
  delete-fails id d e h =
      deleted-fails d (db.delete_where (id_is id ∷ []) d) e (writable.delete-fails id d)
        (writable.delete_none id d) h

  pub delete-eq-ok :
      (id : String) (d : D)
      → (delete db to_lower id d).0 ≡ ok tt
      → (n : ℕ) × ((db.delete_where (id_is id ∷ []) d).0 ≡ ok (suc n))
        × ((delete db to_lower id d).1 ≡ (db.delete_where (id_is id ∷ []) d).1)
  unfolding delete
  delete-eq-ok id d h = deleted-ok (db.delete_where (id_is id ∷ []) d) h
