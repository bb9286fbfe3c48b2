-- ===== src/Service/Policies/Operations/Updates.antt =====
-- internal/service/policy.go, UpdatePolicy: the engine and the database after an update.
use policy_manager.Base.{
  ◌≡◌, refl, sym, ap, ◌∙◌, subst, inl, inr, Option-cases, String, Option, none, some, List, [], ◌∷◌,
  map, ◌==◌, Result, ok, err, map_err, >>=-eq-ok, if◌then◌else◌, arith,
}
use policy_manager.Base.Int.{ℤ}
use policy_manager.Opa.Engine.{Rego, PolicyModule, compile}
use policy_manager.Api.Types
use policy_manager.Store.Model
use policy_manager.Store.Interface.{PolicyStore, StoreError}
use policy_manager.Service.Errors.{ServiceError}
use policy_manager.Service.Converter.{api_to_db_model, db_to_api_model}
use policy_manager.Service.Policies.Validation.{
  validate_patch_input, validate_patch_immutable_fields, merge_policy_onto_policy,
}
use policy_manager.Service.Policies.Operations.{
  World, module_of, recompile_engine, after_update, written_row, update_row, check_patch,
  check_rego, changed_rego, merged_row, update_checked, update_policy, read_error,
}
use policy_manager.Service.Policies.Operations.Laws.{InSync, recompile_engine-cases}

-- The modules with the code of one policy replaced.
abbrev pub set_code : String → String → List PolicyModule → List PolicyModule
set_code id code [] = []
set_code id code (m ∷ ms) =
    (if m.id == id then record m { rego_code = code } else m) ∷ set_code id code ms

set_code_again :
    (id a b : String) (m : PolicyModule)
    → (if (if m.id == id then record m { rego_code = b } else m).id == id
        then record (if m.id == id then record m { rego_code = b } else m) { rego_code = a }
        else (if m.id == id then record m { rego_code = b } else m))
      ≡ (if m.id == id then record m { rego_code = a } else m)
set_code_again id a b m = ground arith

set_code_twice :
    (id a b : String) (ms : List PolicyModule) → set_code id a (set_code id b ms) ≡ set_code id a ms
set_code_twice id a b [] = refl
set_code_twice id a b (m ∷ ms) = λ i. set_code_again id a b m i ∷ set_code_twice id a b ms i

abbrev modules : List Model.Policy → List PolicyModule
modules rows = map module_of rows

-- What the database documents: an update that fails changes nothing, one that succeeds writes the code
-- of the row with its identifier and of no other, a read returns the row with the identifier, and a row
-- that has just been replaced can be written again.
pub record IsTable {D : Type 0} (store : PolicyStore D) : Type 0 where
  pub update-fails :
      (p : Model.Policy) (d : D) (e : StoreError)
      → (store.update p d).0 ≡ err e
      → (store.update p d).1 ≡ d
  pub update-writes :
      (p : Model.Policy) (d : D) (row : Model.Policy) (rows : List Model.Policy)
      → (store.update p d).0 ≡ ok row
      → store.list_all d ≡ ok rows
      → (rows' : List Model.Policy) × (store.list_all (store.update p d).1 ≡ ok rows')
        × (map module_of rows' ≡ set_code p.id p.rego_code (map module_of rows))
  pub get-reads :
      (id : String) (d : D) (row : Model.Policy) (rows : List Model.Policy)
      → store.get id d ≡ ok row
      → store.list_all d ≡ ok rows
      → (row.id ≡ id) × (set_code id row.rego_code (map module_of rows) ≡ map module_of rows)
  pub update-restores :
      (p : Model.Policy) (d : D) (row written : Model.Policy)
      → store.get p.id d ≡ ok row
      → (store.update p d).0 ≡ ok written
      → (again : Model.Policy) × ((store.update row (store.update p d).1).0 ≡ ok again)

module _ {D F K Q : Type 0} (store : PolicyStore D) (rego : Rego F K Q) (decimal : ℤ → String) where
  -- The database lists these modules.
  abbrev Lists : D → List PolicyModule → Type 0
  Lists d ms = (rows : List Model.Policy) × (store.list_all d ≡ ok rows) × (map module_of rows ≡ ms)

  in_sync :
      (d : D) (w : World D Q) (ms : List PolicyModule)
      → Lists d ms
      → compile rego ms w.engine ≡ (ok tt, w.engine)
      → InSync store rego decimal (record w { db = d })
  in_sync d w ms (rows, listed, same) compiled =
      (rows, listed, subst (λ k. compile rego k w.engine ≡ (ok tt, w.engine)) (sym same) compiled)

  after_update-InSync :
      (previous row : Model.Policy) (db : D) (w : World D Q) (ms : List PolicyModule)
      → compile rego ms w.engine ≡ (ok tt, w.engine)
      → Lists (store.update previous db).1 ms
      → InSync store rego decimal
          (after_update store rego decimal row previous
            (recompile_engine store rego decimal (record w { db = db }))).1
  unfolding after_update
  after_update-InSync previous row db w ms compiled restored =
      elim (recompile_engine-cases store rego decimal (record w { db = db })) [
        | inl (done, kept, sync) ↦ rw done sync
        | inr (e, failed, kept) ↦ rw failed (rw kept (in_sync _ w ms restored compiled))
      ]

  update_row-InSync :
      (patch : Option Types.Policy) (previous p : Model.Policy) (w : World D Q)
      (written : Result StoreError Model.Policy × D) (ms : List PolicyModule)
      → compile rego ms w.engine ≡ (ok tt, w.engine)
      → ((e : StoreError) → written.0 ≡ err e → Lists written.1 ms)
      → (changed_rego patch ≡ none → (row : Model.Policy) → written.0 ≡ ok row → Lists written.1 ms)
      → ((row : Model.Policy) → written.0 ≡ ok row → Lists (store.update previous written.1).1 ms)
      → InSync store rego decimal (update_row store rego decimal patch previous p w written).1
  unfolding update_row written_row
  update_row-InSync patch previous p w (err e, db) ms compiled fails same restores =
      in_sync db w ms (fails e refl) compiled
  update_row-InSync patch previous p w (ok row, db) ms compiled fails same restores =
      elim (Option-cases (changed_rego patch)) [
        | inl unchanged ↦ rw unchanged (in_sync db w ms (same unchanged row refl) compiled)
        | inr (code, changed) ↦
            rw changed (after_update-InSync previous row db w ms compiled (restores row refl))
      ]

  read_through :
      (g : StoreError → ServiceError) (read : Result StoreError Model.Policy) (r row : Model.Policy)
      → map_err g read ≡ ok r
      → ◌≡◌ {A = Result ServiceError Model.Policy} (ok r) (ok row)
      → read ≡ ok row
  read_through g (err e) r row h k = cc
  read_through g (ok x) r row h k = cc

  check_patch-get :
      (id : String) (patch : Option Types.Policy) (d : D) (row : Model.Policy)
      → check_patch store rego decimal id patch d ≡ ok row
      → store.get id d ≡ ok row
  unfolding check_patch
  check_patch-get id patch d row h =
      let (u, checked, h1) = >>=-eq-ok (validate_patch_input patch) _ h in
      let (r, read, h2) =
        >>=-eq-ok (map_err (read_error "Failed to get existing policy" id) (store.get id d)) _ h1 in
      let (v, fixed, h3) =
        >>=-eq-ok (validate_patch_immutable_fields patch (db_to_api_model r)) _ h2 in
      let (x, parsed, h4) = >>=-eq-ok (check_rego store rego decimal (changed_rego patch)) _ h3 in
      read_through (read_error "Failed to get existing policy" id) (store.get id d) r row read h4

  merged_code :
      (id : String) (patch : Option Types.Policy) (row : Model.Policy)
      → changed_rego patch ≡ none
      → (merged_row store rego decimal id patch row).rego_code ≡ row.rego_code
  unfolding merged_row merge_policy_onto_policy changed_rego api_to_db_model db_to_api_model
  merged_code id none row h = refl
  merged_code id (some p) row h = rw h refl

  -- What the database lists after the update of a row that it held.
  module _ (laws : IsTable store) (p row : Model.Policy) (d : D) (rows : List Model.Policy)
      (got : store.get p.id d ≡ ok row) (listed : store.list_all d ≡ ok rows) where
    Lists-failed :
        (e : StoreError) → (store.update p d).0 ≡ err e → Lists (store.update p d).1 (modules rows)
    Lists-failed e h =
        subst (λ k. Lists k (modules rows)) (sym (laws.update-fails p d e h)) (rows, listed, refl)

    Lists-same :
        p.rego_code ≡ row.rego_code
        → (written : Model.Policy) → (store.update p d).0 ≡ ok written
        → Lists (store.update p d).1 (modules rows)
    Lists-same same written h =
        let (rows', listed', k) = laws.update-writes p d written rows h listed in
        let (same_id, fixed) = laws.get-reads p.id d row rows got listed in
        (rows', listed', k ∙ ap (λ c. set_code p.id c (modules rows)) same ∙ fixed)

    Lists-restored :
        (written : Model.Policy)
        → (store.update p d).0 ≡ ok written
        → Lists (store.update row (store.update p d).1).1 (modules rows)
    Lists-restored written h =
        let (rows', listed', k) = laws.update-writes p d written rows h listed in
        let (again, h') = laws.update-restores p d row written got h in
        let (rows'', listed'', k') =
          laws.update-writes row (store.update p d).1 again rows' h' listed' in
        let (same_id, fixed) = laws.get-reads p.id d row rows got listed in
        (
          rows'',
          listed'',
          k'
              ∙ ap (set_code row.id row.rego_code) k
              ∙ ap (λ j. set_code j row.rego_code (set_code p.id p.rego_code (modules rows)))
                  same_id
              ∙ set_code_twice p.id row.rego_code p.rego_code (modules rows)
              ∙ fixed,
        )

  merged_id :
      (id : String) (patch : Option Types.Policy) (row : Model.Policy)
      → (merged_row store rego decimal id patch row).id ≡ id
  unfolding merged_row api_to_db_model
  merged_id id patch row = refl

  update_checked-InSync :
      (id : String) (patch : Option Types.Policy) (w : World D Q)
      (checked : Result ServiceError Model.Policy)
      → IsTable store
      → ((row : Model.Policy) → checked ≡ ok row → store.get id w.db ≡ ok row)
      → InSync store rego decimal w
      → InSync store rego decimal (update_checked store rego decimal id patch w checked).1
  unfolding update_checked
  update_checked-InSync id patch w (err e) laws got sync = sync
  update_checked-InSync id patch w (ok row) laws got (rows, listed, compiled) =
      let p = merged_row store rego decimal id patch row in
      let read =
        subst (λ j. store.get j w.db ≡ ok row) (sym (merged_id id patch row)) (got row refl) in
      update_row-InSync patch row p w (store.update p w.db) (modules rows) compiled
        (Lists-failed laws p row w.db rows read listed)
        (λ unchanged.
          Lists-same laws p row w.db rows read listed (merged_code id patch row unchanged))
        (Lists-restored laws p row w.db rows read listed)

  -- If the database behaves as a table, an update that starts with the engine in step with the
  -- database ends so, whether it succeeds, is refused, or is rolled back after a failed compilation.
  pub update_policy-InSync :
      (id : String) (patch : Option Types.Policy) (w : World D Q)
      → IsTable store
      → InSync store rego decimal w
      → InSync store rego decimal (update_policy store rego decimal id patch w).1
  unfolding update_policy
  update_policy-InSync id patch w laws sync =
      update_checked-InSync id patch w _ laws (λ row h. check_patch-get id patch w.db row h) sync
