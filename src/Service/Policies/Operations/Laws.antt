-- ===== src/Service/Policies/Operations/Laws.antt =====
-- internal/service/policy.go: what the operations leave in the database and in the engine.
use policy_manager.Base.{
  ◌≡◌, refl, ap, ◌⊎◌, inl, inr, String, Option, List, map, Result, ok, err, Result-cases,
}
use policy_manager.Base.Int.{ℤ}
use policy_manager.Opa.Engine.{Rego, compile}
use policy_manager.Opa.Engine.Laws.{compile-cases}
use policy_manager.Api.Types
use policy_manager.Store.Model
use policy_manager.Store.Interface.{PolicyStore, StoreError}
use policy_manager.Service.Errors.{ServiceError}
use policy_manager.Service.Converter.{api_to_db_model, db_to_api_model}
use policy_manager.Service.Policies.Operations.{
  World, module_of, recompile_engine, after_create, create_row, create_checked, create_policy,
}

-- What the database documents: a statement that fails changes nothing, and deleting the row that has
-- just been inserted undoes the insertion.
pub record IsTransactional {D : Type 0} (store : PolicyStore D) : Type 0 where
  pub create-fails :
      (p : Model.Policy) (d : D) (e : StoreError)
      → (store.create p d).0 ≡ err e
      → (store.create p d).1 ≡ d
  pub create-undone :
      (p : Model.Policy) (d : D) (row : Model.Policy)
      → (store.create p d).0 ≡ ok row
      → (store.delete p.id (store.create p d).1).1 ≡ d

module _ {D F K Q : Type 0} (store : PolicyStore D) (rego : Rego F K Q) (decimal : ℤ → String) where
  -- Compiling all rows of the database succeeds, and gives the engine that is there.
  abbrev pub InSync : World D Q → Type 0
  InSync w =
      (rows : List Model.Policy) × (store.list_all w.db ≡ ok rows)
      × (compile rego (map module_of rows) w.engine ≡ (ok tt, w.engine))

  -- A recompilation puts the engine in step with the database, or changes nothing.
  pub recompile_engine-cases :
      (w : World D Q)
      → (((recompile_engine store rego decimal w).0 ≡ ok tt)
          × (recompile_engine store rego decimal w).1.db ≡ w.db
          × InSync (recompile_engine store rego decimal w).1)
        ⊎ ((e : String) × ((recompile_engine store rego decimal w).0 ≡ err e)
            × ((recompile_engine store rego decimal w).1 ≡ w))
  unfolding recompile_engine
  recompile_engine-cases w = elim (Result-cases (store.list_all w.db)) [
    | inr (e, h) ↦ rw h (inr (_, refl, refl))
    | inl (rows, h) ↦ elim (compile-cases rego (map module_of rows) w.engine) [
      | inr (e, k) ↦ rw h (rw k (inr (_, refl, refl)))
      | inl (new, k) ↦ rw h (rw (k w.engine) (inl (refl, refl, (rows, h, k new))))
    ]
  ]

  -- A creation has written the row, returned it, and put the engine in step, or it has returned an
  -- error and changed nothing.
  abbrev pub IsAllOrNothing :
      World D Q
      → Result StoreError Model.Policy × D
      → Result ServiceError Types.Policy × World D Q
      → Type 0
  IsAllOrNothing w written out =
      ((row : Model.Policy) × (written.0 ≡ ok row)
        × (out.0 ≡ ok (db_to_api_model row))
        × (out.1.db ≡ written.1)
        × InSync out.1)
      ⊎ ((e : ServiceError) × (out.0 ≡ err e) × (out.1 ≡ w))

  create_row-IsAllOrNothing :
      (p : Model.Policy) (w : World D Q) (written : Result StoreError Model.Policy × D)
      → ((e : StoreError) → written.0 ≡ err e → written.1 ≡ w.db)
      → ((row : Model.Policy) → written.0 ≡ ok row → (store.delete p.id written.1).1 ≡ w.db)
      → IsAllOrNothing w written (create_row store rego decimal p w written)
  unfolding create_row after_create
  create_row-IsAllOrNothing p w (err e, db) fails undone =
      inr (_, refl, ap (λ d. record w { db = d }) (fails e refl))
  create_row-IsAllOrNothing p w (ok row, db) fails undone =
      elim (recompile_engine-cases (record w { db = db })) [
        | inl (done, same, sync) ↦ rw done (inl (row, refl, refl, same, sync))
        | inr (e, failed, same) ↦
            rw failed (rw same (inr (_, refl, ap (λ d. record w { db = d }) (undone row refl))))
      ]

  create_checked-atomic :
      (policy : Types.Policy) (w : World D Q) (checked : Result ServiceError String)
      → IsTransactional store
      → ((id : String) × IsAllOrNothing w
            (store.create (api_to_db_model policy id) w.db)
            (create_checked store rego decimal policy w checked))
        ⊎ ((e : ServiceError) × (create_checked store rego decimal policy w checked ≡ (err e, w)))
  unfolding create_checked
  create_checked-atomic policy w (err e) laws = inr (e, refl)
  create_checked-atomic policy w (ok id) laws =
      let p = api_to_db_model policy id in
      inl (
        id,
        create_row-IsAllOrNothing p w (store.create p w.db) (laws.create-fails p w.db)
            (laws.create-undone p w.db),
      )

  -- Over a transactional database, to create a policy is all or nothing: either the row is written and
  -- returned and the engine holds what compiling all rows gives, or an error is returned and neither
  -- the database nor the engine has changed. That covers the deletion after a failed compilation.
  pub create_policy-atomic :
      (uuid : String) (policy : Types.Policy) (client_id : Option String) (w : World D Q)
      → IsTransactional store
      → ((id : String) × IsAllOrNothing w
            (store.create (api_to_db_model policy id) w.db)
            (create_policy store rego decimal uuid policy client_id w))
        ⊎ ((e : ServiceError) × (create_policy store rego decimal uuid policy client_id w
              ≡ (err e, w)))
  unfolding create_policy
  create_policy-atomic uuid policy client_id w laws = create_checked-atomic policy w _ laws
