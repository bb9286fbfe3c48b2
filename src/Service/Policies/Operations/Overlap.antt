-- ===== src/Service/Policies/Operations/Overlap.antt =====
-- internal/service/policy.go: CreatePolicy as the steps between which other requests may run, since no
-- lock is held over them: the checks with the write, the reading of all rows, and the compilation.
use policy_manager.Base.{
  ◌≡◌, refl, ap, ◌∙◌, ◌⊎◌, inl, inr, false, String, Option, List, map, Result, ok, err, contains,
}
use policy_manager.Base.Int.{ℤ}
use policy_manager.Json.{Object, empty}
use policy_manager.Opa.Engine.{Rego, evaluate_policy}
use policy_manager.Opa.Engine.Laws.{compile-atomic, evaluate_policy-absent}
use policy_manager.Api.Types
use policy_manager.Store.Model
use policy_manager.Store.Interface.{PolicyStore, StoreError}
use policy_manager.Service.Errors.{ServiceError}
use policy_manager.Service.Errors.Mapping.{process_policy_store_error}
use policy_manager.Service.Converter.{api_to_db_model, db_to_api_model}
use policy_manager.Service.Policies.Operations.{
  World, module_of, recompile_rows, recompile_engine, after_create, create_row, create_checked,
  check_new, create_policy,
}

-- Where a request to create a policy is: before its checks, with its row written, with all rows read, and
-- answered.
pub data Creating : Type 0 where
  requested : Types.Policy → Option String → Creating
  row_written : Model.Policy → String → Creating
  rows_read : Model.Policy → String → Result StoreError (List Model.Policy) → Creating
  answered : Result ServiceError Types.Policy → Creating

module _ {D F K Q : Type 0} (store : PolicyStore D) (rego : Rego F K Q) (decimal : ℤ → String) where
  written : Model.Policy → World D Q → Result StoreError Model.Policy × D → Creating × World D Q
  written db_policy w (err e, db) = (
    answered (err (process_policy_store_error decimal e db_policy "create")),
    record w { db = db },
  )
  written db_policy w (ok created, db) = (row_written created db_policy.id, record w { db = db })

  checked : Types.Policy → World D Q → Result ServiceError String → Creating × World D Q
  unfolding written
  checked policy w (err e) = (answered (err e), w)
  checked policy w (ok id) =
      written (api_to_db_model policy id) w (store.create (api_to_db_model policy id) w.db)

  check_step : String → Types.Policy → Option String → World D Q → Creating × World D Q
  unfolding checked
  check_step uuid policy id w = checked policy w (check_new store rego decimal uuid policy id)

  compile_step :
      Model.Policy
      → String
      → Result StoreError (List Model.Policy)
      → World D Q
      → Creating × World D Q
  compile_step created id rows w =
      let (r, w') =
        after_create store rego decimal created id (recompile_rows store rego decimal w rows) in
      (answered r, w')

  -- One step of the request; `uuid` as for `create_policy`.
  unfoldable pub advance : String → Creating → World D Q → Creating × World D Q
  unfolding check_step compile_step check_new after_create recompile_rows
  advance uuid (requested policy id) w = check_step uuid policy id w
  advance uuid (row_written created id) w = (rows_read created id (store.list_all w.db), w)
  advance uuid (rows_read created id rows) w = compile_step created id rows w
  advance uuid (answered r) w = (answered r, w)

  -- The three steps of a request that no other request comes between.
  unfoldable pub advance_all : String → Creating → World D Q → Creating × World D Q
  advance_all uuid s w =
      let (s1, w1) = advance uuid s w in let (s2, w2) = advance uuid s1 w1 in advance uuid s2 w2

  written-create_row :
      (uuid : String) (p : Model.Policy) (w : World D Q) (out : Result StoreError Model.Policy × D)
      → let (s1, w1) = written p w out in
        let (s2, w2) = advance uuid s1 w1 in
        advance uuid s2 w2 ≡ (
          answered (create_row store rego decimal p w out).0,
          (create_row store rego decimal p w out).1,
        )
  unfolding written advance create_row recompile_engine
  written-create_row uuid p w (err e, db) = refl
  written-create_row uuid p w (ok created, db) = refl

  checked-create_checked :
      (uuid : String) (policy : Types.Policy) (w : World D Q) (out : Result ServiceError String)
      → let (s1, w1) = checked policy w out in
        let (s2, w2) = advance uuid s1 w1 in
        advance uuid s2 w2 ≡ (
          answered (create_checked store rego decimal policy w out).0,
          (create_checked store rego decimal policy w out).1,
        )
  unfolding checked advance create_checked
  checked-create_checked uuid policy w (err e) = refl
  checked-create_checked uuid policy w (ok id) =
      written-create_row uuid (api_to_db_model policy id) w _

  -- A request to create a policy that no other request comes between gives what `create_policy` gives:
  -- the same answer, the same database and the same engine.
  pub advance_all-create_policy :
      (uuid : String) (policy : Types.Policy) (id : Option String) (w : World D Q)
      → let (r, w') = create_policy store rego decimal uuid policy id w in
        advance_all uuid (requested policy id) w ≡ (answered r, w')
  unfolding advance_all advance create_policy
  advance_all-create_policy uuid policy id w =
      checked-create_checked uuid policy w (check_new store rego decimal uuid policy id)

  after_create-unenforced :
      (created : Model.Policy) (id : String) (rows : List Model.Policy) (w : World D Q)
      → let (r, w') =
          after_create store rego decimal created id
            (recompile_rows store rego decimal w (ok rows)) in
        ((e : ServiceError) × (r ≡ err e) × (w'.engine ≡ w.engine))
        ⊎ ((r ≡ ok (db_to_api_model created))
            × ((other : String) (input : Object F)
                → contains (map (λ p. p.id) (map module_of rows)) other ≡ false
                → evaluate_policy rego w'.engine other input
                  ≡ ok (record { result = empty; defined = false })))
  unfolding after_create recompile_rows
  after_create-unenforced created id rows w =
      elim (compile-atomic rego (map module_of rows) w.engine) [
        | inr (x, failed, same) ↦ rw failed (inl (_, refl, same))
        | inl (done, queries) ↦ rw done (
            inr (
              refl,
              λ other input absent.
                  evaluate_policy-absent rego _ other input (queries other ∙ absent),
            ))
      ]

  -- A request to create a policy that has read the rows compiles those rows, whatever other requests have
  -- done since: if it succeeds, then a policy that is not among them, such as one created meanwhile, has
  -- no decision afterwards, so that no evaluation applies it, and if it fails, the engine is unchanged.
  pub advance-unenforced :
      (uuid : String) (created : Model.Policy) (id : String) (rows : List Model.Policy)
      (w : World D Q)
      → let (s, w') = advance uuid (rows_read created id (ok rows)) w in
        ((e : ServiceError) × (s ≡ answered (err e)) × (w'.engine ≡ w.engine))
        ⊎ ((s ≡ answered (ok (db_to_api_model created)))
            × ((other : String) (input : Object F)
                → contains (map (λ p. p.id) (map module_of rows)) other ≡ false
                → evaluate_policy rego w'.engine other input
                  ≡ ok (record { result = empty; defined = false })))
  unfolding advance
  advance-unenforced uuid created id rows w = elim (after_create-unenforced created id rows w) [
    | inl (e, failed, same) ↦ inl (e, ap answered failed, same)
    | inr (done, absent) ↦ inr (ap answered done, absent)
  ]
