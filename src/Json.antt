-- ===== src/Json.antt =====
-- Go's `any` as the program meets it: what `encoding/json` and OPA produce. `F` is the type of the
-- float64 values; `int` stands for int, int32 and int64, and a float32 for the float64 that it
-- converts to. A `map[string]any` is its entries in the order of a `range`.
pub mod Laws
pub mod Go
use policy_manager.Base.{◌≡◌, Bool, String, Option, none, some, ◌==◌, List, [], ◌∷◌, if◌then◌else◌}
use policy_manager.Base.Int.{ℤ}

mutual
  pub data Value (F : Type 0) : Type 0 where
    null : Value F
    bool : Bool → Value F
    float64 : F → Value F
    int : ℤ → Value F
    number : String → Value F
    str : String → Value F
    arr : Items F → Value F
    obj : Object F → Value F

  pub data Items (F : Type 0) : Type 0 where
    nil : Items F
    cons : Value F → Items F → Items F

  pub data Object (F : Type 0) : Type 0 where
    empty : Object F
    field : String → Value F → Object F → Object F

module _ {F : Type 0} where
  -- `m[k]`, with the `ok` of the two-value form
  unfoldable pub get : String → Object F → Option (Value F)
  get k empty = none
  get k (field j v o) = if j == k then some v else get k o

  -- `m[k] = v`
  unfoldable pub put : String → Value F → Object F → Object F
  put k v empty = field k v empty
  put k v (field j w o) = if j == k then field k v o else field j w (put k v o)

  -- `delete(m, k)`
  unfoldable pub delete : String → Object F → Object F
  delete k empty = empty
  delete k (field j w o) = let rest = delete k o in if j == k then rest else field j w rest

  -- Type assertions, `v.(T)`.
  abbrev pub as_bool : Value F → Option Bool
  as_bool (bool b) = some b
  as_bool _ = none

  abbrev pub as_string : Value F → Option String
  as_string (str s) = some s
  as_string _ = none

  abbrev pub as_items : Value F → Option (Items F)
  as_items (arr xs) = some xs
  as_items _ = none

  abbrev pub as_object : Value F → Option (Object F)
  as_object (obj o) = some o
  as_object _ = none

  -- `baseMap, ok := m[k].(map[string]any)`, from `m[k]`
  abbrev pub nested_object : Option (Value F) → Option (Object F)
  nested_object none = none
  nested_object (some v) = as_object v

  -- No key stands twice, which a Go map gives for nothing.
  abbrev pub IsMap : Object F → Type 0
  IsMap empty = Unit
  IsMap (field k v o) = (get k o ≡ none) × IsMap o

  unfoldable pub snoc : Items F → Value F → Items F
  snoc nil v = cons v nil
  snoc (cons w ws) v = cons w (snoc ws v)

  abbrev pub elems : Items F → List (Value F)
  elems nil = []
  elems (cons v vs) = v ∷ elems vs

  abbrev pub items : List (Value F) → Items F
  items [] = nil
  items (v ∷ vs) = cons v (items vs)
