-- ===== src/Examples/Operations.antt =====
-- The operations over a table that holds at most one row.
use policy_manager.Base.{
  ℕ, contains, ◌≡◌, refl, Bool-cases, inl, inr, ap, sym, subst, ◌∙◌, ◌⊎◌, Bool, true, false, String,
  Option, none, some, List, [], ◌∷◌, map, ◌==◌, eq_iff, eq_refl, Result, ok, err, arith,
  if◌then◌else◌,
}
use policy_manager.Base.Int.{ℤ}
use policy_manager.Opa.Engine.{compile, evaluate_policy}
use policy_manager.Json.{Object, empty}
use policy_manager.Store.Model
use policy_manager.Store.Interface.{PolicyStore, StoreError, policy_not_found, database_error}
use policy_manager.Service.Errors.{ServiceError}
use policy_manager.Service.Converter.{db_to_api_model}
use policy_manager.Service.Policies.Operations.{World, update_policy, module_of}
use policy_manager.Service.Policies.Operations.Laws.{IsTransactional, InSync}
use policy_manager.Service.Policies.Operations.Updates.{IsTable, set_code, update_policy-InSync}
use policy_manager.Service.Policies.Operations.Overlap.{
  rows_read, answered, advance, advance-unenforced,
}
use policy_manager.Examples.Setup.{rego}
use policy_manager.Examples.Policies.{row, raise_priority}

abbrev Table : Type 0
Table = Option Model.Policy

abbrev rows_of : Table → List Model.Policy
rows_of none = []
rows_of (some q) = q ∷ []

abbrev create_one : Model.Policy → Table → Result StoreError Model.Policy × Table
create_one p none = (ok p, some p)
create_one p (some q) = (err (database_error "full"), some q)

abbrev delete_one : String → Table → Result StoreError (Unit {0}) × Table
delete_one id none = (err policy_not_found, none)
delete_one id (some q) = if q.id == id then (ok tt, none) else (err policy_not_found, some q)

abbrev update_one : Model.Policy → Table → Result StoreError Model.Policy × Table
update_one p none = (err policy_not_found, none)
update_one p (some q) =
    if q.id == p.id then (ok p, some (record p { id = q.id })) else (err policy_not_found, some q)

abbrev get_one : String → Table → Result StoreError Model.Policy
get_one id none = err policy_not_found
get_one id (some q) = if q.id == id then ok q else err policy_not_found

abbrev store : PolicyStore Table
store = record {
  list = λ opts d. ok (record { policies = rows_of d; next_page_token = "" });
  list_all = λ d. ok (rows_of d);
  create = create_one;
  delete = delete_one;
  update = update_one;
  get = get_one;
}

create_one-fails :
    (p : Model.Policy) (d : Table) (e : StoreError)
    → (create_one p d).0 ≡ err e
    → (create_one p d).1 ≡ d
create_one-fails p none e h = cc
create_one-fails p (some q) e h = refl

create_one-undone :
    (p : Model.Policy) (d : Table) (r : Model.Policy)
    → (create_one p d).0 ≡ ok r
    → (delete_one p.id (create_one p d).1).1 ≡ d
create_one-undone p none r h = rw (eq_refl p.id) refl
create_one-undone p (some q) r h = cc

store-IsTransactional : IsTransactional store
store-IsTransactional = record {
  create-fails = create_one-fails;
  create-undone = create_one-undone;
}

update_one-fails :
    (p : Model.Policy) (d : Table) (e : StoreError)
    → (update_one p d).0 ≡ err e
    → (update_one p d).1 ≡ d
update_one-fails p none e h = refl
update_one-fails p (some q) e h = ground arith

rows_from : (d : Table) (rows : List Model.Policy) → store.list_all d ≡ ok rows → rows_of d ≡ rows
rows_from d rows h = cc

update_one-lists :
    (p : Model.Policy) (d : Table) (r : Model.Policy)
    → (update_one p d).0 ≡ ok r
    → map module_of (rows_of (update_one p d).1)
      ≡ set_code p.id p.rego_code (map module_of (rows_of d))
update_one-lists p none r h = cc
update_one-lists p (some q) r h = elim (Bool-cases (q.id == p.id)) [
  | inl same ↦ rw same refl
  | inr other ↦ rw other refl
]

update_one-writes :
    (p : Model.Policy) (d : Table) (r : Model.Policy) (rows : List Model.Policy)
    → (update_one p d).0 ≡ ok r
    → store.list_all d ≡ ok rows
    → (rows' : List Model.Policy) × (store.list_all (update_one p d).1 ≡ ok rows')
      × (map module_of rows' ≡ set_code p.id p.rego_code (map module_of rows))
update_one-writes p d r rows h k = (
  rows_of (update_one p d).1,
  refl,
  update_one-lists p d r h
      ∙ ap (λ rs. set_code p.id p.rego_code (map module_of rs)) (rows_from d rows k),
)

got_row :
    (b : Bool) (q r : Model.Policy)
    → (if b then ok q else err policy_not_found) ≡ ok r
    → (b ≡ true) × (q ≡ r)
got_row true q r h = (refl, cc)
got_row false q r h = cc

get_one-id :
    (id : String) (d : Table) (r : Model.Policy) → get_one id d ≡ ok r → (r.id ≡ id) × (d ≡ some r)
get_one-id id none r h = cc
get_one-id id (some q) r h =
    let (found, same) = got_row (q.id == id) q r h in
    (sym (ap (λ x. x.id) same) ∙ (eq_iff q.id id).0 found, ap (λ x. some x) same)

set_code_one :
    (id : String) (r : Model.Policy)
    → r.id ≡ id
    → set_code id r.rego_code (module_of r ∷ []) ≡ module_of r ∷ []
set_code_one id r h = rw ((eq_iff r.id id).1 h) refl

get_one-reads :
    (id : String) (d : Table) (r : Model.Policy) (rows : List Model.Policy)
    → get_one id d ≡ ok r
    → store.list_all d ≡ ok rows
    → (r.id ≡ id) × (set_code id r.rego_code (map module_of rows) ≡ map module_of rows)
get_one-reads id d r rows h k =
    let (same_id, held) = get_one-id id d r h in
    (
      same_id,
      subst (λ rs. set_code id r.rego_code (map module_of rs) ≡ map module_of rs)
          (sym (ap rows_of held) ∙ rows_from d rows k) (set_code_one id r same_id),
    )

update_one-restores :
    (p : Model.Policy) (d : Table) (r w : Model.Policy)
    → get_one p.id d ≡ ok r
    → (update_one p d).0 ≡ ok w
    → (again : Model.Policy) × ((update_one r (update_one p d).1).0 ≡ ok again)
update_one-restores p none r w h k = cc
update_one-restores p (some q) r w h k =
    let (found, same) = got_row (q.id == p.id) q r h in
    rw found (rw ((eq_iff q.id r.id).1 (ap (λ x. x.id) same)) (r, refl))

store-IsTable : IsTable store
store-IsTable = record {
  update-fails = update_one-fails;
  update-writes = update_one-writes;
  get-reads = get_one-reads;
  update-restores = update_one-restores;
}

-- An empty table, and one row with the engine that its compilation gives.
abbrev empty_world : World Table String
empty_world = record { db = none; engine = record { queries = [] } }

abbrev world : World Table String
world = record { db = some row; engine = (compile rego (module_of row ∷ []) empty_world.engine).1 }

abbrev decimal : ℤ → String
decimal z = "10"

world-InSync : InSync store rego decimal world
unfolding compile
world-InSync = (row ∷ [], refl, refl)

update_policy-InSync_example :
    InSync store rego decimal
      (update_policy store rego decimal "deny-all" (some raise_priority) world).1
update_policy-InSync_example =
    update_policy-InSync store rego decimal "deny-all" (some raise_priority) world store-IsTable
      world-InSync

-- A request that has read no rows compiles none, although a row has been written since.
abbrev late : World Table String
late = record { db = some row; engine = record { queries = ("p1", "data.p1.main") ∷ [] } }

advance-unenforced_example :
    let (s, w') = advance store rego (λ n. "0") "u" (rows_read row "p2" (ok [])) late in
    ((e : ServiceError) × (s ≡ answered (err e)) × (w'.engine ≡ late.engine))
    ⊎ ((s ≡ answered (ok (db_to_api_model row)))
        × ((other : String) (input : Object ℕ)
            → contains (map (λ p. p.id) (map module_of [])) other ≡ false
            → evaluate_policy rego w'.engine other input
              ≡ ok (record { result = empty; defined = false })))
advance-unenforced_example = advance-unenforced store rego (λ n. "0") "u" row "p2" [] late
