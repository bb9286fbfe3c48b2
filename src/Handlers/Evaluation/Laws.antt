-- ===== src/Handlers/Evaluation/Laws.antt =====
-- internal/handlers/engine/converters.go: the labels of a request.
use policy_manager.Base.{
  ◌≡◌, refl, sym, ap, ◌∙◌, Bool, true, false, Bool-cases, inl, inr, String, Option, none, some,
  ◌==◌, [], Result, ok, if◌then◌else◌, eq_iff,
}
use policy_manager.Base.Dict.{Dict, lookup, lookup-insert}
use policy_manager.Json.{Value, Object, empty, field, get, as_string, nested_object, IsMap}
use policy_manager.Handlers.Evaluation.{
  add_label, add_labels, labels_of, metadata_of, string_field, request_labels_of,
  extract_request_labels,
}

ok_injective : {a b : Dict String} → ◌≡◌ {A = Result String (Dict String)} (ok a) (ok b) → a ≡ b
ok_injective h = cc

-- What a lookup with a default gives.
abbrev pub or_else : Option String → Option String → Option String
or_else none rest = rest
or_else (some v) rest = some v

-- One turn of the loop, when no later label has its key.
lookup-add_label :
    (k j : String) (o later : Option String) (result : Dict String)
    → (j ≡ k → later ≡ none)
    → or_else later (lookup k (add_label j o result))
      ≡ or_else (if j == k then o else later) (lookup k result)
unfolding add_label
lookup-add_label k j none later result fresh = elim (Bool-cases (j == k)) [
  | inl e ↦ rw (e, fresh ((eq_iff j k).0 e)) refl
  | inr e ↦ rw e refl
]
lookup-add_label k j (some s) later result fresh = elim (Bool-cases (j == k)) [
  | inl e ↦ rw (lookup-insert k j s result, e, fresh ((eq_iff j k).0 e)) refl
  | inr e ↦ rw (lookup-insert k j s result, e) refl
]

module _ {F : Type 0} where
  -- The string at a key of an object that may be missing.
  abbrev pub string_at : String → Option (Object F) → Option String
  string_at k none = none
  string_at k (some o) = string_field (get k o)

  -- `spec.metadata.labels`
  abbrev pub nested_labels : Option (Object F) → Option (Object F)
  nested_labels none = none
  nested_labels (some metadata) = nested_object (get "labels" metadata)

  abbrev pub spec_labels : Object F → Option (Object F)
  spec_labels spec = nested_labels (nested_object (get "metadata" spec))

  -- No label stands twice, which a Go map gives for nothing.
  abbrev pub IsLabels : Option (Object F) → Type 0
  IsLabels none = Unit
  IsLabels (some labels) = IsMap labels

  string_field-if :
      (b : Bool) (v : Value F) (o : Option (Value F))
      → string_field (if b then some v else o) ≡ (if b then as_string v else string_field o)
  unfolding string_field
  string_field-if false v o = refl
  string_field-if true v o = refl

  lookup-add_labels :
      (k : String) (labels : Object F) (result : Dict String)
      → IsMap labels
      → lookup k (add_labels labels result)
        ≡ or_else (string_field (get k labels)) (lookup k result)
  unfolding add_labels get string_field
  lookup-add_labels k empty result m = refl
  lookup-add_labels k (field j v labels) result (fresh, m) =
      lookup-add_labels k labels (add_label j (as_string v) result) m
      ∙ lookup-add_label k j (as_string v) (string_field (get k labels)) result
          (λ e. ap string_field (ap (λ i. get i labels) (sym e) ∙ fresh))
      ∙ ap (λ o. or_else o (lookup k result)) (sym (string_field-if (j == k) v (get k labels)))

  lookup-labels_of :
      (k : String) (labels : Option (Object F)) (result : Dict String)
      → IsLabels labels
      → lookup k (labels_of labels result) ≡ or_else (string_at k labels) (lookup k result)
  unfolding labels_of
  lookup-labels_of k none result m = refl
  lookup-labels_of k (some labels) result m = lookup-add_labels k labels result m

  lookup-metadata_of :
      (k : String) (metadata : Option (Object F)) (result : Dict String)
      → IsLabels (nested_labels metadata)
      → lookup k (metadata_of metadata result)
        ≡ or_else (string_at k (nested_labels metadata)) (lookup k result)
  unfolding metadata_of
  lookup-metadata_of k none result m = refl
  lookup-metadata_of k (some metadata) result m =
      lookup-labels_of k (nested_object (get "labels" metadata)) result m

  -- What a request's labels are, from its specification alone.
  abbrev pub label_of : String → String → Object F → Option String
  label_of service_type k spec =
      or_else (string_at k (spec_labels spec))
        (if "service_type" == k then some service_type else none)

  request_labels_of-label_of :
      (service_type : Option String) (spec : Object F) (labels : Dict String) (k : String)
      → IsLabels (spec_labels spec)
      → request_labels_of service_type spec ≡ ok labels
      → (s : String) × (service_type ≡ some s) × (lookup k labels ≡ label_of s k spec)
  unfolding request_labels_of lookup
  request_labels_of-label_of none spec labels k m h = cc
  request_labels_of-label_of (some s) spec labels k m h = (
    s,
    refl,
    ap (lookup k) (sym (ok_injective h))
        ∙ lookup-metadata_of k (nested_object (get "metadata" spec)) _ m
        ∙ ap (or_else (string_at k (spec_labels spec))) (lookup-insert k "service_type" s []),
  )

  -- The labels that policies are selected by: a label of spec.metadata.labels counts when its value is
  -- a string, it comes before the service type when it has the key service_type, and there is no other
  -- label than these; a request whose service type is not a string has none.
  pub extract_request_labels-label_of :
      (spec : Object F) (labels : Dict String) (k : String)
      → IsLabels (spec_labels spec)
      → extract_request_labels spec ≡ ok labels
      → (s : String) × (string_field (get "service_type" spec) ≡ some s)
        × (lookup k labels ≡ label_of s k spec)
  unfolding extract_request_labels
  extract_request_labels-label_of spec labels k m h =
      request_labels_of-label_of (string_field (get "service_type" spec)) spec labels k m h
