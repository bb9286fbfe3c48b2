-- ===== src/Service/Constraints/Context.antt =====
-- `ConstraintContext`, `NewConstraintContext`, `MergeConstraints` and the two maps for the OPA input.
pub mod Laws
use policy_manager.Base.{
  String, Option, none, some, List, [], ◌∷◌, Result, ok, ◌>>=◌, map, if◌then◌else◌,
}
use policy_manager.Base.Dict.{Dict, lookup, insert}
use policy_manager.Json.{Value, str, arr, obj, Object, empty, field, as_object, items}
use policy_manager.Json.Go.{Go}
use policy_manager.Service.Constraints.Copy.{deep_copy_schema_map}
use policy_manager.Service.Constraints.Keywords.{ConstraintConflictError, merge_schema_keywords}

pub record AccumulatedSpConstraints : Type 0 where
  pub allow_list : List String
  pub patterns : List String
  pub set_by_policy : String

pub record ConstraintContext (F : Type 0) : Type 0 where
  pub constrained_fields_by_field_path : Dict (Object F)
  pub policy_id_by_field_path : Dict String
  pub service_provider_constraints : Option AccumulatedSpConstraints

-- A missing key of a map[string]string reads as the empty text.
abbrev pub text_at : String → Dict String → String
text_at k d = elim (lookup k d) [ none ↦ "" | some s ↦ s ]

module _ {F : Type 0} where
  unfoldable pub new_constraint_context : ConstraintContext F
  new_constraint_context = record {
    constrained_fields_by_field_path = [];
    policy_id_by_field_path = [];
    service_provider_constraints = none;
  }

  -- The first constraint of a field.
  abbrev pub store_constraint :
      Go F → String → Object F → String → ConstraintContext F → ConstraintContext F
  store_constraint go field_path new_constraint policy_id c = record c {
    constrained_fields_by_field_path =
        insert field_path (deep_copy_schema_map go new_constraint)
          c.constrained_fields_by_field_path;
    policy_id_by_field_path = insert field_path policy_id c.policy_id_by_field_path;
  }

  -- One round of the loop at a schema, from what the context holds for the field.
  merge_field :
      Go F
      → String
      → Object F
      → String
      → Option (Object F)
      → ConstraintContext F
      → Result ConstraintConflictError (ConstraintContext F)
  merge_field go field_path new_constraint policy_id none c =
      ok (store_constraint go field_path new_constraint policy_id c)
  merge_field go field_path new_constraint policy_id (some existing) c = do
    merged ←
        merge_schema_keywords go field_path (text_at field_path c.policy_id_by_field_path) existing
          new_constraint
    ok (record c {
      constrained_fields_by_field_path =
          insert field_path merged c.constrained_fields_by_field_path;
    })

  -- A constraint that is no object is passed over.
  merge_constraint :
      Go F
      → String
      → Option (Object F)
      → String
      → ConstraintContext F
      → Result ConstraintConflictError (ConstraintContext F)
  unfolding merge_field
  merge_constraint go field_path none policy_id c = ok c
  merge_constraint go field_path (some new_constraint) policy_id c =
      merge_field go field_path new_constraint policy_id
        (lookup field_path c.constrained_fields_by_field_path) c

  unfoldable pub merge_constraints :
      Go F
      → Object F
      → String
      → ConstraintContext F
      → Result ConstraintConflictError (ConstraintContext F)
  unfolding merge_constraint
  merge_constraints go empty policy_id c = ok c
  merge_constraints go (field field_path constraint rest) policy_id c =
      merge_constraint go field_path (as_object constraint) policy_id c >>= λ c'.
      merge_constraints go rest policy_id c'

  constraint_entries : Dict (Object F) → Object F
  constraint_entries [] = empty
  constraint_entries ((k, v) ∷ rest) = field k (obj v) (constraint_entries rest)

  -- `GetConstraintsMap`; `none` is nil.
  unfoldable pub get_constraints_map : ConstraintContext F → Option (Object F)
  unfolding constraint_entries
  get_constraints_map c = elim c.constrained_fields_by_field_path [
    | [] ↦ none
    | e ∷ es ↦ some (constraint_entries (e ∷ es))
  ]

  -- A []string of the input is an array of texts.
  texts : List String → Value F
  texts xs = arr (items (map str xs))

  put_texts : String → List String → Object F → Object F
  unfolding texts
  put_texts k [] o = o
  put_texts k (x ∷ xs) o = field k (texts (x ∷ xs)) o

  -- `GetSPConstraintsMap`
  unfoldable pub get_sp_constraints_map : ConstraintContext F → Option (Object F)
  unfolding put_texts
  get_sp_constraints_map c = elim c.service_provider_constraints [
    | none ↦ none
    | some sp ↦ some (put_texts "allow_list" sp.allow_list (put_texts "patterns" sp.patterns empty))
  ]
