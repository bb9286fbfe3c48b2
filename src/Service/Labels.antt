-- ===== src/Service/Labels.antt =====
-- internal/service/labelmatcher.go
pub mod Laws
use policy_manager.Base.{
  Bool, true, false, Option, none, some, String, List, [], ◌∷◌, ◌==◌, not, ◌||◌, if◌then◌else◌,
}
use policy_manager.Base.Dict.{Dict, lookup}

-- `!exists || requestValue != value`
differs : Option String → String → Bool
differs none value = true
differs (some request_value) value = not (request_value == value)

-- The loop over the selector's labels.
match_labels : Dict String → Dict String → Bool
unfolding differs
match_labels request_labels [] = true
match_labels request_labels ((key, value) ∷ rest) =
    if differs (lookup key request_labels) value then false else match_labels request_labels rest

unfoldable pub matches_label_selector : Dict String → Dict String → Bool
unfolding match_labels
matches_label_selector [] request_labels = true
matches_label_selector (l ∷ ls) request_labels = match_labels request_labels (l ∷ ls)
