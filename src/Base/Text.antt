-- ===== src/Base/Text.antt =====
-- What the program uses of Go's `strings` and `strconv`, over the characters of a text.
use Prim.Native.Char.{Char, code}
use Prim.Native.String
use Prim.Native.String.{String}
use mathlib.Core.Bool.{Bool, ◌||◌, ◌&&◌}
use mathlib.Core.List.{List, [], ◌∷◌}
use Prim.Native.Nat.{ℕ}
use text.Mathlib.Text.{find?}
use policy_manager.Base.Tests.{is_some, eqb, leb, if◌then◌else◌}

-- `unicode.IsSpace`: the Latin-1 spaces, and those above.
abbrev pub is_space : ℕ → Bool
is_space c =
    (leb 9 c && leb c 13)
    || eqb c 32
    || eqb c 0x85
    || eqb c 0xa0
    || eqb c 0x1680
    || (leb 0x2000 c && leb c 0x200a)
    || eqb c 0x2028
    || eqb c 0x2029
    || eqb c 0x202f
    || eqb c 0x205f
    || eqb c 0x3000

pub trim_left : String → String
trim_left String.[] = ""
trim_left (String.◌∷◌ c s) =
    let rest = trim_left s in if is_space (code c) then rest else String.◌∷◌ c s

-- A text without the spaces at its end.
pub trim_right : String → String
trim_right String.[] = ""
trim_right (String.◌∷◌ c s) =
    let rest = trim_right s in
    elim rest [
      | String.[] ↦ if is_space (code c) then "" else String.◌∷◌ c ""
      | String.◌∷◌ d t ↦ String.◌∷◌ c (String.◌∷◌ d t)
    ]

-- `strings.TrimSpace`
unfoldable pub trim_space : String → String
unfolding trim_left trim_right
trim_space s = trim_right (trim_left s)

abbrev push : String → Char → String
push s c = String.◌++◌ s (String.◌∷◌ c "")

-- `strings.Split` at one character, with the part read so far.
split_from : ℕ → String → String → List String
split_from sep cur String.[] = cur ∷ []
split_from sep cur (String.◌∷◌ c s) =
    let closed = split_from sep "" s in
    let longer = split_from sep (push cur c) s in if eqb (code c) sep then cur ∷ closed else longer

unfoldable pub split : ℕ → String → List String
unfolding split_from
split sep s = split_from sep "" s

abbrev add_word : String → List String → List String
add_word w ws = elim w [ String.[] ↦ ws | String.◌∷◌ c s ↦ String.◌∷◌ c s ∷ ws ]

-- `strings.Fields`: the words between runs of spaces.
fields_from : String → String → List String
fields_from cur String.[] = add_word cur []
fields_from cur (String.◌∷◌ c s) =
    let closed = fields_from "" s in
    let longer = fields_from (push cur c) s in
    if is_space (code c) then add_word cur closed else longer

unfoldable pub fields : String → List String
unfolding fields_from
fields s = fields_from "" s

-- `strings.Join`
unfoldable pub join : String → List String → String
join sep [] = ""
join sep (x ∷ []) = x
join sep (x ∷ y ∷ xs) = String.◌++◌ x (String.◌++◌ sep (join sep (y ∷ xs)))

-- `strings.Contains(s, substr)`
abbrev pub contains_text : String → String → Bool
contains_text s substr = is_some (find? s substr)

-- `fmt.Sprintf`, with the texts that the verbs print put in.
unfoldable pub sprintf : List String → String
sprintf [] = ""
sprintf (x ∷ xs) = String.◌++◌ x (sprintf xs)
