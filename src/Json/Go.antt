-- ===== src/Json/Go.antt =====
-- What the program calls and does not implement, over JSON values: float64 arithmetic, encoding/json,
-- fmt, regexp and brunoga/deep.
use policy_manager.Base.{◌≡◌, Bool, String, Option, Result, ok}
use policy_manager.Base.Int.{ℤ}
use policy_manager.Json.{Value, Object}

pub record Go (F : Type 0) : Type 0 where
  -- `<` on float64, and math.Max, math.Min, math.Mod
  pub lt : F → F → Bool
  pub fmax : F → F → F
  pub fmin : F → F → F
  pub fmod : F → F → F
  -- `x == 0`
  pub is_zero : F → Bool
  -- float64(n) of an integer, and json.Number's Float64
  pub of_int : ℤ → F
  pub parse_float : String → Option F
  -- json.Marshal, and the `%v` of fmt
  pub marshal : Value F → Option String
  pub sprint : Value F → String
  -- regexp.MatchString
  pub match_string : String → String → Result String Bool
  -- deep.Copy and deep.Equal at map[string]any
  pub deep_copy : Object F → Result String (Object F)
  pub deep_equal : Object F → Object F → Bool

-- deep.Copy of JSON data succeeds and yields an equal map.
pub record Copies {F : Type 0} (go : Go F) : Type 0 where
  pub copy : (o : Object F) → go.deep_copy o ≡ ok o
