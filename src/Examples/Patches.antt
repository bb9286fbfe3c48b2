-- ===== src/Examples/Patches.antt =====
-- Merge patches at concrete objects.
use policy_manager.Base.{ℕ, ◌≡◌, refl, ◌↔◌, true, String, some, List, [], ◌∷◌, ok, All}
use policy_manager.Base.Dict.{lookup}
use policy_manager.Json.{null, str, obj, Object, empty, field, get, put, delete, IsMap}
use policy_manager.Service.Labels.{matches_label_selector}
use policy_manager.Service.Labels.Laws.{matches_label_selector_iff}
use policy_manager.Service.Patch.{merge_patch}
use policy_manager.Service.Patch.Laws.{MergedAt, merge_patch-MergedAt}
use policy_manager.Service.Patch.Rfc7396.{rfc7396, is_mergeable}
use policy_manager.Service.Patch.Rfc7396.Equal.{merge_patch-rfc7396}
use policy_manager.Examples.Setup.{go, go-Copies}

abbrev base : Object ℕ
base = field "region" (str "eu") (field "tier" (obj (field "cpu" (str "2") empty)) empty)

-- A null, and an object that is merged into an object.
abbrev patch : Object ℕ
patch = field "region" null (field "tier" (obj (field "mem" (str "4") empty)) empty)

abbrev merged_base : Object ℕ
merged_base = field "tier" (obj (field "cpu" (str "2") (field "mem" (str "4") empty))) empty

merged : merge_patch go base patch ≡ ok merged_base
unfolding merge_patch get put delete
merged = refl

patch-IsMap : IsMap patch
unfolding get
patch-IsMap = (refl, (refl, tt))

merge_patch-MergedAt_example :
    MergedAt go (get "region" base) (get "region" patch) (get "region" merged_base)
merge_patch-MergedAt_example =
    merge_patch-MergedAt go go-Copies base patch merged_base "region" patch-IsMap merged

merge_patch-rfc7396_example : merge_patch go base patch ≡ ok (rfc7396 patch base)
unfolding is_mergeable get
merge_patch-rfc7396_example = merge_patch-rfc7396 go go-Copies base patch refl

abbrev selector : List (String × String)
selector = ("env", "prod") ∷ []

matches_label_selector_iff_example :
    (matches_label_selector selector (("tier", "gold") ∷ ("env", "prod") ∷ []) ≡ true)
    ↔ All (λ l. lookup l.0 (("tier", "gold") ∷ ("env", "prod") ∷ []) ≡ some l.1) selector
matches_label_selector_iff_example =
    matches_label_selector_iff selector (("tier", "gold") ∷ ("env", "prod") ∷ [])
