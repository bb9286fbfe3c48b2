-- ===== src/Service/Policies/Operations/Deletes.antt =====
-- internal/service/policy.go, DeletePolicy: the engine and the database after a deletion.
use policy_manager.Base.{
  ◌≡◌, refl, sym, subst, inl, inr, String, List, [], ◌∷◌, map, ◌==◌, Result, ok, err, if◌then◌else◌,
}
use policy_manager.Base.Int.{ℤ}
use policy_manager.Opa.Engine.{Rego, PolicyModule}
use policy_manager.Store.Model
use policy_manager.Store.Interface.{PolicyStore, StoreError}
use policy_manager.Service.Policies.Operations.{
  World, module_of, recompile_engine, delete_row, delete_policy,
}
use policy_manager.Service.Policies.Operations.Laws.{InSync, recompile_engine-cases}

-- The modules without those of one policy.
abbrev pub remove : String → List PolicyModule → List PolicyModule
remove id [] = []
remove id (m ∷ ms) = if m.id == id then remove id ms else m ∷ remove id ms

-- A deletion that fails changes nothing, and one that succeeds removes the policy and no other.
pub record IsErasable {D : Type 0} (store : PolicyStore D) : Type 0 where
  pub delete-fails :
      (id : String) (d : D) (e : StoreError)
      → (store.delete id d).0 ≡ err e
      → (store.delete id d).1 ≡ d
  pub delete-writes :
      (id : String) (d : D) (rows : List Model.Policy)
      → (store.delete id d).0 ≡ ok tt
      → store.list_all d ≡ ok rows
      → (rows' : List Model.Policy) × (store.list_all (store.delete id d).1 ≡ ok rows')
        × (map module_of rows' ≡ remove id (map module_of rows))

module _ {D F K Q : Type 0} (store : PolicyStore D) (rego : Rego F K Q) (decimal : ℤ → String) where
  -- If the deletion removes a row, the policies that are left are read and compile.
  abbrev pub LeavesCompiling : String → World D Q → Type 0
  LeavesCompiling id w =
      (store.delete id w.db).0 ≡ ok tt
      → (recompile_engine store rego decimal (record w { db = (store.delete id w.db).1 })).0 ≡ ok tt

  pub recompiled-InSync :
      (w : World D Q)
      → (recompile_engine store rego decimal w).0 ≡ ok tt
      → InSync store rego decimal (recompile_engine store rego decimal w).1
  recompiled-InSync w done = elim (recompile_engine-cases store rego decimal w) [
    | inl (same, kept, sync) ↦ sync
    | inr (e, failed, kept) ↦ cc
  ]

  delete_row-InSync :
      (id : String) (w : World D Q) (deleted : Result StoreError (Unit {0}) × D)
      → ((e : StoreError) → deleted.0 ≡ err e → deleted.1 ≡ w.db)
      → (deleted.0 ≡ ok tt
          → (recompile_engine store rego decimal (record w { db = deleted.1 })).0 ≡ ok tt)
      → InSync store rego decimal w
      → InSync store rego decimal (delete_row store rego decimal id w deleted).1
  unfolding delete_row
  delete_row-InSync id w (err e, db) fails leaves sync =
      subst (λ d. InSync store rego decimal (record w { db = d })) (sym (fails e refl)) sync
  delete_row-InSync id w (ok u, db) fails leaves sync =
      recompiled-InSync (record w { db = db }) (leaves refl)

  -- If the policies that are left compile, a deletion that starts with the engine in step with the
  -- database ends so, whether it succeeds or not.
  pub delete_policy-InSync :
      (id : String) (w : World D Q)
      → IsErasable store
      → LeavesCompiling id w
      → InSync store rego decimal w
      → InSync store rego decimal (delete_policy store rego decimal id w).1
  unfolding delete_policy
  delete_policy-InSync id w laws leaves sync =
      delete_row-InSync id w (store.delete id w.db) (laws.delete-fails id w.db) leaves sync
