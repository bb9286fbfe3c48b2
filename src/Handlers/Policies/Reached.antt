-- ===== src/Handlers/Policies/Reached.antt =====
-- The states that a server reaches: cmd/policy-manager/main.go compiles all policies before it serves,
-- and each call of internal/handlers/v1alpha1/policy.go that writes takes one step.
use mathlib.Core.Bool.{Bool-set}
use mathlib.Core.List.{Mem, Perm, not-mem-nil, mem-cons, mem-cons_self, mem-cons_of_mem}
use mathlib.Core.List.Perm
use mathlib.Core.Logic.Or
use policy_manager.Base.{
  ◌≡◌, refl, sym, ap, ◌∙◌, subst, inl, inr, Bool, true, false, String, Option, none, some, List, [],
  ◌∷◌, map, contains, is_some, ◌==◌, ◌||◌, eq_refl, eq_iff, ◌↔◌, Bool-cases, Result, ok, err,
  map_err,
}
use policy_manager.Base.Int.{ℤ}
use policy_manager.Base.Dict.{lookup}
use policy_manager.Opa.Engine.{Rego}
use policy_manager.Opa.Engine.Laws.{compile-atomic}
use policy_manager.Api.Types
use policy_manager.Api.Server
use policy_manager.Store.Model.{Policy}
use policy_manager.Store.Interface.{PolicyStore, StoreError}
use policy_manager.Store.Database.{Database}
use policy_manager.Store.Database.Relational.{IsRelational, IsWritable}
use policy_manager.Store.Policies.{new_policy, list_all}
use policy_manager.Store.Policies.Writes.{list_all-eq-ok}
use policy_manager.Service.Policies.Operations.{World, module_of}
use policy_manager.Service.Policies.Operations.Laws.{InSync, IsTransactional}
use policy_manager.Service.Policies.Operations.Updates.{IsTable, update_policy-InSync}
use policy_manager.Service.Policies.Operations.Deletes.{
  IsErasable, LeavesCompiling, recompiled-InSync, delete_policy-InSync,
}
use policy_manager.Service.Policies.Operations.Stored.{
  new_policy-IsTransactional, new_policy-IsTable, new_policy-IsErasable,
}
use policy_manager.Handlers.Conversions.{policy_server_to_v1_alpha1}
use policy_manager.Handlers.Errors.{AnyError, other_error}
use policy_manager.Handlers.Policies.Laws.{api, IsCreation, create_policy-IsCreation}
use policy_manager.Handlers.Policies.{create_policy, updated, update_policy, deleted, delete_policy}

wrapped-ok : (r : Result String (Unit {0})) → map_err other_error r ≡ ok tt → r ≡ ok tt
wrapped-ok (ok tt) h = refl
wrapped-ok (err e) h = cc

module _ {D F K Q : Type 0} (store : PolicyStore D) (rego : Rego F K Q) (decimal : ℤ → String)
    (to_upper : String → String) where
  -- The server starts when the compilation of all policies succeeds; then any calls follow, one by one,
  -- with any bodies and identifiers. Where a call deletes a policy, those that are left compile: the
  -- service only logs it if they do not.
  pub data Reached : World D Q → Type 0 where
    started :
        (w : World D Q)
        → ((api store rego decimal to_upper "").compile_all w).0 ≡ ok tt
        → Reached ((api store rego decimal to_upper "").compile_all w).1
    creation :
        (uuid : String) (body : Option Server.Policy) (id : Option String) (w : World D Q)
        → Reached w
        → Reached (create_policy (api store rego decimal to_upper uuid) body id w).1
    change :
        (id : String) (body : Option Server.Policy) (w : World D Q)
        → Reached w
        → Reached (update_policy (api store rego decimal to_upper "") id body w).1
    deletion :
        (id : String) (w : World D Q)
        → LeavesCompiling store rego decimal id w
        → Reached w
        → Reached (delete_policy (api store rego decimal to_upper "") id w).1

  creation-InSync :
      (body : Option Server.Policy) (w : World D Q) (out : Server.CreatePolicyResponse × World D Q)
      → IsCreation store rego decimal to_upper body w out
      → InSync store rego decimal w
      → InSync store rego decimal out.1
  creation-InSync none w out (refused, same) sync =
      subst (InSync store rego decimal) (sym same) sync
  creation-InSync (some body) w out (inl (id, row, wrote, answer, db, sync')) sync = sync'
  creation-InSync (some body) w out (inr (refused, same)) sync =
      subst (InSync store rego decimal) (sym same) sync

  updated-world :
      (r : Result AnyError Types.Policy × World D Q)
      → (updated (api store rego decimal to_upper "") r).1 ≡ r.1
  unfolding updated
  updated-world (ok p, w) = refl
  updated-world (err e, w) = refl

  deleted-world :
      (r : Result AnyError (Unit {0}) × World D Q)
      → (deleted (api store rego decimal to_upper "") r).1 ≡ r.1
  unfolding deleted
  deleted-world (ok u, w) = refl
  deleted-world (err e, w) = refl

  change-InSync :
      (id : String) (body : Option Server.Policy) (w : World D Q)
      → IsTable store
      → InSync store rego decimal w
      → InSync store rego decimal (update_policy (api store rego decimal to_upper "") id body w).1
  unfolding update_policy
  change-InSync id none w laws sync = sync
  change-InSync id (some body) w laws sync =
      subst (InSync store rego decimal) (sym (updated-world _)) (
        update_policy-InSync store rego decimal id (some (policy_server_to_v1_alpha1 body)) w laws
          sync)

  deletion-InSync :
      (id : String) (w : World D Q)
      → IsErasable store
      → LeavesCompiling store rego decimal id w
      → InSync store rego decimal w
      → InSync store rego decimal (delete_policy (api store rego decimal to_upper "") id w).1
  unfolding delete_policy
  deletion-InSync id w laws leaves sync =
      subst (InSync store rego decimal) (sym (deleted-world _))
        (delete_policy-InSync store rego decimal id w laws leaves sync)

  Reached-InSync :
      (w : World D Q)
      → IsTransactional store
      → IsTable store
      → IsErasable store
      → Reached w
      → InSync store rego decimal w
  Reached-InSync w transactional table erasable (started w0 done) =
      recompiled-InSync store rego decimal w0 (wrapped-ok _ done)
  Reached-InSync w transactional table erasable (creation uuid body id w0 before) =
      creation-InSync body w0 _
        (create_policy-IsCreation store rego decimal to_upper uuid body id w0 transactional)
        (Reached-InSync w0 transactional table erasable before)
  Reached-InSync w transactional table erasable (change id body w0 before) =
      change-InSync id body w0 table (Reached-InSync w0 transactional table erasable before)
  Reached-InSync w transactional table erasable (deletion id w0 leaves before) =
      deletion-InSync id w0 erasable leaves (Reached-InSync w0 transactional table erasable before)

-- Some row has the identifier.
abbrev pub Holds : String → List Policy → Type 0
Holds id rows = (p : Policy) × Mem p rows × (p.id ≡ id)

or_true : (b : Bool) → (b || true) ≡ true
or_true true = refl
or_true false = refl

Holds-contains :
    (id : String) (rows : List Policy)
    → Holds id rows
    → contains (map (λ m. m.id) (map module_of rows)) id ≡ true
Holds-contains id [] (p, m, own) = absurd (not-mem-nil m)
Holds-contains id (q ∷ qs) (p, m, own) =
    Or.elim (Bool-set _ _) (mem-cons.0 m)
      (λ same. rw (sym (ap (λ r. r.id) same) ∙ own) (rw (eq_refl id) refl))
      (λ later. rw (Holds-contains id qs (p, later, own)) (or_true (q.id == id)))

contains-Holds :
    (id : String) (rows : List Policy)
    → contains (map (λ m. m.id) (map module_of rows)) id ≡ true
    → Holds id rows
contains-Holds id [] h = absurd (cc h)
contains-Holds id (q ∷ qs) h = elim (Bool-cases (q.id == id)) [
  | inl e ↦ (q, mem-cons_self, (eq_iff q.id id).0 e)
  | inr n ↦ let (p, m, own) = contains-Holds id qs (rw n at h) in (p, mem-cons_of_mem q m, own)
]

Holds-Perm :
    {rows rows' : List Policy} (id : String) → Perm rows rows' → Holds id rows ↔ Holds id rows'
Holds-Perm id perm = (
  λ (p, m, own). (p, (Perm.mem_iff perm).0 m, own),
  λ (p, m, own). (p, (Perm.mem_iff perm).1 m, own),
)

rows_injective :
    {a b : List Policy} → ◌≡◌ {A = Result StoreError (List Policy)} (ok a) (ok b) → a ≡ b
rows_injective h = cc

module _ {D F K Q : Type 0} (db : Database D) (to_lower : String → String)
    (relational : IsRelational db) (writable : IsWritable db relational) (rego : Rego F K Q)
    (decimal : ℤ → String) (to_upper : String → String) where
  -- Of a server over a database that behaves as SQL documents, whose reads and whose rollbacks of a
  -- creation or an update do not fail: after the compilation at the start and any sequence of calls of
  -- the policy API, each of them accepted, refused or rolled back, where the policies that each deletion
  -- leaves compile, the engine is in step with the database, that is, compiling all rows succeeds and
  -- gives the engine that is there.
  pub new_policy-InSync :
      (w : World D Q)
      → Reached (new_policy db to_lower) rego decimal to_upper w
      → InSync (new_policy db to_lower) rego decimal w
  new_policy-InSync w reached =
      Reached-InSync (new_policy db to_lower) rego decimal to_upper w
        (new_policy-IsTransactional db to_lower relational writable)
        (new_policy-IsTable db to_lower relational writable)
        (new_policy-IsErasable db to_lower relational writable) reached

  listed_rows-Perm :
      (d : D) (rows : List Policy)
      → list_all db to_lower d ≡ ok rows
      → Perm rows (relational.table d)
  listed_rows-Perm d rows listed =
      subst (λ rs. Perm rs (relational.table d))
        (rows_injective (sym (list_all-eq-ok db to_lower relational writable d) ∙ listed))
        (relational.sort-perm "id ASC" (relational.table d))

  InSync-compiled :
      (w : World D Q) (id : String)
      → InSync (new_policy db to_lower) rego decimal w
      → (is_some (lookup id w.engine.queries) ≡ true) ↔ Holds id (relational.table w.db)
  InSync-compiled w id (rows, listed, compiled) =
      elim (compile-atomic rego (map module_of rows) w.engine) [
        | inl (done, queries) ↦
            let same = ap (λ r. is_some (lookup id r.1.queries)) (sym compiled) ∙ queries id in
            let perm = listed_rows-Perm w.db rows listed in
            (
              λ found. (Holds-Perm id perm).0 (contains-Holds id rows (sym same ∙ found)),
              λ holds. same ∙ Holds-contains id rows ((Holds-Perm id perm).1 holds),
            )
        | inr (x, failed, kept) ↦ cc
      ]

  -- Of a server over a database that behaves as SQL documents, whose reads and whose rollbacks of a
  -- creation or an update do not fail, after the compilation at the start and any sequence of calls of
  -- the policy API, where the policies that each deletion leaves compile: the engine has a compiled query
  -- for an identifier exactly if the database holds a policy with it.
  pub Reached-compiled :
      (w : World D Q) (id : String)
      → Reached (new_policy db to_lower) rego decimal to_upper w
      → (is_some (lookup id w.engine.queries) ≡ true) ↔ Holds id (relational.table w.db)
  Reached-compiled w id reached = InSync-compiled w id (new_policy-InSync w reached)
