-- ===== src/Service/Converter/Laws.antt =====
-- internal/service/converter.go: the two conversions one after the other.
use policy_manager.Base.{◌≡◌, refl, String, [], ◌∷◌, eq_iff, arith}
use policy_manager.Base.Dict.{Dict}
use policy_manager.Store.Model
use policy_manager.Service.Converter.{
  or_default, api_to_db_model, db_to_api_model, nonempty_text, nonempty_labels,
}

or_default-nonempty_text : (s : String) → or_default "" (nonempty_text s) ≡ s
unfolding nonempty_text
or_default-nonempty_text s = ground (arith, eq_iff s "")

or_default-nonempty_labels : (d : Dict String) → or_default [] (nonempty_labels d) ≡ d
unfolding nonempty_labels
or_default-nonempty_labels [] = refl
or_default-nonempty_labels (l ∷ ls) = refl

-- A stored policy read through the API and converted back under its own identifier is the stored
-- policy, but for the two times, which a conversion to the database leaves zero for it to set.
pub api_to_db_model-db_to_api_model :
    (db : Model.Policy)
    → api_to_db_model (db_to_api_model db) db.id ≡ record db { create_time = 0; update_time = 0 }
unfolding api_to_db_model db_to_api_model
api_to_db_model-db_to_api_model db = λ i. record db {
  description = or_default-nonempty_text db.description i;
  label_selector = or_default-nonempty_labels db.label_selector i;
  create_time = 0;
  update_time = 0;
}
