-- ===== src/Service/Constraints/Context/Laws.antt =====
-- internal/service/constraints.go, MergeConstraints: what it does to the provider constraints.
use policy_manager.Base.{◌≡◌, ap, sym, ◌∙◌, String, Option, none, some, Result, ok, >>=-eq-ok}
use policy_manager.Base.Dict.{lookup}
use policy_manager.Json.{Object, empty, field, as_object}
use policy_manager.Json.Go.{Go}
use policy_manager.Service.Constraints.Keywords.{ConstraintConflictError, merge_schema_keywords}
use policy_manager.Service.Constraints.Context.{
  ConstraintContext, text_at, merge_field, merge_constraint, merge_constraints,
}

module _ {F : Type 0} (go : Go F) where
  context-ok-inj :
      (x y : ConstraintContext F)
      → ◌≡◌ {A = Result ConstraintConflictError (ConstraintContext F)} (ok x) (ok y)
      → x ≡ y
  context-ok-inj x y h = cc

  merge_field-sp :
      (path : String) (new : Object F) (id : String) (p : Option (Object F))
      (c c' : ConstraintContext F)
      → merge_field go path new id p c ≡ ok c'
      → c'.service_provider_constraints ≡ c.service_provider_constraints
  unfolding merge_field
  merge_field-sp path new id none c c' h =
      ap (λ (x : ConstraintContext F). x.service_provider_constraints) (sym (context-ok-inj _ c' h))
  merge_field-sp path new id (some old) c c' h =
      let (m, merged, later) =
        >>=-eq-ok (merge_schema_keywords go path (text_at path c.policy_id_by_field_path) old new) _
          h in
      ap (λ (x : ConstraintContext F). x.service_provider_constraints)
        (sym (context-ok-inj _ c' later))

  merge_constraint-sp :
      (path : String) (o : Option (Object F)) (id : String) (c c' : ConstraintContext F)
      → merge_constraint go path o id c ≡ ok c'
      → c'.service_provider_constraints ≡ c.service_provider_constraints
  unfolding merge_constraint
  merge_constraint-sp path none id c c' h =
      ap (λ (x : ConstraintContext F). x.service_provider_constraints) (sym (context-ok-inj c c' h))
  merge_constraint-sp path (some o) id c c' h =
      merge_field-sp path o id (lookup path c.constrained_fields_by_field_path) c c' h

  pub merge_constraints-sp :
      (new : Object F) (id : String) (c c' : ConstraintContext F)
      → merge_constraints go new id c ≡ ok c'
      → c'.service_provider_constraints ≡ c.service_provider_constraints
  unfolding merge_constraints
  merge_constraints-sp empty id c c' h =
      ap (λ (x : ConstraintContext F). x.service_provider_constraints) (sym (context-ok-inj c c' h))
  merge_constraints-sp (field path v rest) id c c' h =
      let (d, first, later) = >>=-eq-ok (merge_constraint go path (as_object v) id c) _ h in
      merge_constraints-sp rest id d c' later ∙ merge_constraint-sp path (as_object v) id c d first
