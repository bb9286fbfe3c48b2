-- ===== src/Json/Laws.antt =====
-- The laws of reads and writes of JSON objects.
use policy_manager.Base.{◌≡◌, refl, String, none, some, ◌==◌, eq_iff, arith, if◌then◌else◌}
use policy_manager.Json.{Value, Object, empty, field, get, put, delete, IsMap}

module _ {F : Type 0} where
  pub get-put :
      (j k : String) (v : Value F) (o : Object F)
      → get j (put k v o) ≡ (if k == j then some v else get j o)
  unfolding get put
  get-put j k v empty = refl
  get-put j k v (field i w o) = ground (arith, eq_iff k j, eq_iff i k, eq_iff i j, get-put j k v o)

  pub get-delete :
      (j k : String) (o : Object F) → get j (delete k o) ≡ (if k == j then none else get j o)
  unfolding get delete
  get-delete j k empty = ground arith
  get-delete j k (field i w o) =
      ground (arith, eq_iff k j, eq_iff i k, eq_iff i j, get-delete j k o)

  pub put-IsMap : (k : String) (v : Value F) (o : Object F) → IsMap o → IsMap (put k v o)
  unfolding put get
  put-IsMap k v empty h = (refl, tt)
  put-IsMap k v (field j w o) h =
      ground (arith, eq_iff j k, eq_iff k j, put-IsMap k v o h.1, get-put j k v o)

  pub delete-IsMap : (k : String) (o : Object F) → IsMap o → IsMap (delete k o)
  unfolding delete
  delete-IsMap k empty h = tt
  delete-IsMap k (field j w o) h = ground (arith, delete-IsMap k o h.1, get-delete j k o)

pub ruleset object_laws = (get-put, get-delete)
