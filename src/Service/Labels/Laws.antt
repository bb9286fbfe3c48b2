-- ===== src/Service/Labels/Laws.antt =====
-- What a label selector accepts.
use policy_manager.Base.{◌≡◌, refl, ◌↔◌, true, some, String, [], ◌∷◌, All, arith, eq_iff}
use policy_manager.Base.Dict.{Dict, lookup}
use policy_manager.Service.Labels.{match_labels, matches_label_selector}

match_labels_iff :
    (labels selector : Dict String)
    → (match_labels labels selector ≡ true) ↔ All (λ l. lookup l.0 labels ≡ some l.1) selector
unfolding match_labels
match_labels_iff labels [] = (λ h. tt, λ h. refl)
match_labels_iff labels ((k, v) ∷ rest) = grind (arith, match_labels_iff labels rest, eq_iff)

-- A selector matches exactly when each of its labels stands with the same value in the request's
-- labels; the empty selector matches every request.
pub matches_label_selector_iff :
    (selector labels : Dict String)
    → (matches_label_selector selector labels ≡ true)
      ↔ All (λ l. lookup l.0 labels ≡ some l.1) selector
unfolding matches_label_selector
matches_label_selector_iff [] labels = (λ h. tt, λ h. refl)
matches_label_selector_iff (l ∷ ls) labels = match_labels_iff labels (l ∷ ls)
