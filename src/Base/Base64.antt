-- ===== src/Base/Base64.antt =====
-- base64.StdEncoding, on the bytes of the text.
use Prim.Native.Nat.{ℕ, ◌+◌, ◌-◌, ◌*◌, ◌/◌, ◌%◌, ◌<◌}
use mathlib.Core.Path.{◌≡◌, refl, ap, ◌∙◌}
use mathlib.Core.Bool.{false, ◌&&◌, ◌||◌}
use mathlib.Core.Option.{Option, none, some}
use mathlib.Core.List.{List, [], ◌∷◌}
use native.Mathlib.Omega.{arith}
use policy_manager.Base.Tests.{ltb, leb, eqb, if◌then◌else◌}
use policy_manager.Base.Lists.{All}

-- The alphabet: A to Z, a to z, 0 to 9, + and /.
symbol : ℕ → ℕ
symbol n =
    if ltb n 26
    then b'A' + n
    else if ltb n 52
    then b'a' + (n - 26)
    else if ltb n 62
    then b'0' + (n - 52)
    else if eqb n 62
    then b'+'
    else b'/'

value : ℕ → Option ℕ
value c =
    if leb b'A' c && leb c b'Z'
    then some (c - b'A')
    else if leb b'a' c && leb c b'z'
    then some (c - b'a' + 26)
    else if leb b'0' c && leb c b'9'
    then some (c - b'0' + 52)
    else if eqb c b'+'
    then some 62
    else if eqb c b'/'
    then some 63
    else none

unfoldable pub encode : List ℕ → List ℕ
unfolding symbol
encode [] = []
encode (a ∷ []) = symbol (a / 4) ∷ symbol (a % 4 * 16) ∷ b'=' ∷ b'=' ∷ []
encode (a ∷ b ∷ []) =
    symbol (a / 4) ∷ symbol (a % 4 * 16 + b / 16) ∷ symbol (b % 16 * 4) ∷ b'=' ∷ []
encode (a ∷ b ∷ c ∷ r) =
    symbol (a / 4)
    ∷ symbol (a % 4 * 16 + b / 16)
    ∷ symbol (b % 16 * 4 + c / 64)
    ∷ symbol (c % 64)
    ∷ encode r

-- What two, three and four symbols stand for; `rest` is the bytes after them.
two : Option ℕ → Option ℕ → Option (List ℕ)
two (some w) (some x) = some ((w * 4 + x / 16) ∷ [])
two w x = none

three : Option ℕ → Option ℕ → Option ℕ → Option (List ℕ)
three (some w) (some x) (some y) = some ((w * 4 + x / 16) ∷ (x % 16 * 16 + y / 4) ∷ [])
three w x y = none

four : Option ℕ → Option ℕ → Option ℕ → Option ℕ → Option (List ℕ) → Option (List ℕ)
four (some w) (some x) (some y) (some z) (some rest) =
    some ((w * 4 + x / 16) ∷ (x % 16 * 16 + y / 4) ∷ (y % 4 * 64 + z) ∷ rest)
four w x y z rest = none

-- Padding ends the text.
padded : List ℕ → Option (List ℕ) → Option (List ℕ)
padded [] bytes = bytes
padded (e ∷ r) bytes = none

quartets : List ℕ → Option (List ℕ)
unfolding two three four padded value
quartets [] = some []
quartets (a ∷ b ∷ c ∷ d ∷ r) =
    let rest = quartets r in
    if eqb c b'='
    then (if eqb d b'=' then padded r (two (value a) (value b)) else none)
    else if eqb d b'='
    then padded r (three (value a) (value b) (value c))
    else four (value a) (value b) (value c) (value d) rest
quartets _ = none

-- The decoder passes over line breaks.
without_breaks : List ℕ → List ℕ
without_breaks [] = []
without_breaks (c ∷ s) =
    let rest = without_breaks s in if eqb c 10 || eqb c 13 then rest else c ∷ rest

-- `none` is a CorruptInputError.
unfoldable pub decode : List ℕ → Option (List ℕ)
unfolding quartets without_breaks
decode s = quartets (without_breaks s)

abbrev IsBytes : List ℕ → Type 0
IsBytes s = All (λ n. n < 256) s

value-symbol : (n : ℕ) → n < 64 → value (symbol n) ≡ some n
unfolding value symbol
value-symbol n h = ground arith

symbol_ascii : (n : ℕ) → n < 64 → symbol n < 128
unfolding symbol
symbol_ascii n h = ground arith

symbol_no_padding : (n : ℕ) → n < 64 → eqb (symbol n) b'=' ≡ false
unfolding symbol
symbol_no_padding n h = ground arith

symbol_no_break : (n : ℕ) → n < 64 → (eqb (symbol n) 10 || eqb (symbol n) 13) ≡ false
unfolding symbol
symbol_no_break n h = ground arith

-- What holds of the symbols and of the padding holds of an encoded text.
encode-All :
    (P : ℕ → Type 0) (s : List ℕ)
    → ((n : ℕ) → n < 64 → P (symbol n))
    → P b'='
    → IsBytes s
    → All P (encode s)
unfolding encode
encode-All P [] holds pad h = tt
encode-All P (a ∷ []) holds pad (p, h) =
    (holds (a / 4) (omega arith), (holds (a % 4 * 16) (omega arith), (pad, (pad, tt))))
encode-All P (a ∷ b ∷ []) holds pad (p, (q, h)) = (
  holds (a / 4) (omega arith),
  (holds (a % 4 * 16 + b / 16) (omega arith), (holds (b % 16 * 4) (omega arith), (pad, tt))),
)
encode-All P (a ∷ b ∷ c ∷ r) holds pad (p, (q, (l, h))) = (
  holds (a / 4) (omega arith),
  (
    holds (a % 4 * 16 + b / 16) (omega arith),
    (
      holds (b % 16 * 4 + c / 64) (omega arith),
      (holds (c % 64) (omega arith), encode-All P r holds pad h),
    ),
  ),
)

pub encode-ascii : (s : List ℕ) → IsBytes s → All (λ n. n < 128) (encode s)
encode-ascii s h = encode-All (λ n. n < 128) s symbol_ascii (omega arith) h

without_breaks-All :
    (s : List ℕ) → All (λ c. (eqb c 10 || eqb c 13) ≡ false) s → without_breaks s ≡ s
unfolding without_breaks
without_breaks-All [] h = refl
without_breaks-All (c ∷ s) h = rw h.0 (ap (λ r. c ∷ r) (without_breaks-All s h.1))

module _ (w x : ℕ) (hw : w < 64) (hx : x < 64) where
  quartets-two : quartets (symbol w ∷ symbol x ∷ b'=' ∷ b'=' ∷ []) ≡ some ((w * 4 + x / 16) ∷ [])
  unfolding quartets
  quartets-two = rw (value-symbol w hw) (rw (value-symbol x hx) refl)

  module _ (y : ℕ) (hy : y < 64) where
    quartets-three :
        quartets (symbol w ∷ symbol x ∷ symbol y ∷ b'=' ∷ [])
        ≡ some ((w * 4 + x / 16) ∷ (x % 16 * 16 + y / 4) ∷ [])
    unfolding quartets
    quartets-three =
        rw (symbol_no_padding y hy)
          (rw (value-symbol w hw) (rw (value-symbol x hx) (rw (value-symbol y hy) refl)))

    quartets-four :
        (z : ℕ) (r rest : List ℕ)
        → z < 64
        → quartets r ≡ some rest
        → quartets (symbol w ∷ symbol x ∷ symbol y ∷ symbol z ∷ r)
          ≡ some ((w * 4 + x / 16) ∷ (x % 16 * 16 + y / 4) ∷ (y % 4 * 64 + z) ∷ rest)
    unfolding quartets
    quartets-four z r rest hz h = rw (symbol_no_padding y hy) (
        rw (symbol_no_padding z hz) (
          rw (value-symbol w hw)
            (rw (value-symbol x hx) (rw (value-symbol y hy) (rw (value-symbol z hz) (rw h refl))))))

-- The bytes come back from their sextets.
one_byte : (a : ℕ) → a < 256 → a / 4 * 4 + a % 4 * 16 / 16 ≡ a
one_byte a h = omega arith

first_byte : (a b : ℕ) → a < 256 → b < 256 → a / 4 * 4 + (a % 4 * 16 + b / 16) / 16 ≡ a
first_byte a b h k = omega arith

middle_byte : (a b : ℕ) → b < 256 → (a % 4 * 16 + b / 16) % 16 * 16 + b % 16 * 4 / 4 ≡ b
middle_byte a b k = omega arith

second_byte :
    (a b c : ℕ)
    → b < 256
    → c < 256
    → (a % 4 * 16 + b / 16) % 16 * 16 + (b % 16 * 4 + c / 64) / 4 ≡ b
second_byte a b c k l = omega arith

third_byte : (b c : ℕ) → c < 256 → (b % 16 * 4 + c / 64) % 4 * 64 + c % 64 ≡ c
third_byte b c l = omega arith

quartets-encode : (s : List ℕ) → IsBytes s → quartets (encode s) ≡ some s
unfolding encode
quartets-encode [] h = unfold quartets in refl
quartets-encode (a ∷ []) (p, h) =
    quartets-two (a / 4) (a % 4 * 16) (omega arith) (omega arith) ∙ λ i. some (one_byte a p i ∷ [])
quartets-encode (a ∷ b ∷ []) (p, (q, h)) =
    quartets-three (a / 4) (a % 4 * 16 + b / 16) (omega arith) (omega arith) (b % 16 * 4)
      (omega arith)
    ∙ λ i. some (first_byte a b p q i ∷ middle_byte a b q i ∷ [])
quartets-encode (a ∷ b ∷ c ∷ r) (p, (q, (l, h))) =
    quartets-four (a / 4) (a % 4 * 16 + b / 16) (omega arith) (omega arith) (b % 16 * 4 + c / 64)
      (omega arith) (c % 64) (encode r) r (omega arith) (quartets-encode r h)
    ∙ λ i. some (first_byte a b p q i ∷ second_byte a b c q l i ∷ third_byte b c l i ∷ r)

-- Bytes are read back from their encoding.
pub decode-encode : (s : List ℕ) → IsBytes s → decode (encode s) ≡ some s
unfolding decode
decode-encode s h =
    ap quartets (
      without_breaks-All (encode s)
        (encode-All (λ c. (eqb c 10 || eqb c 13) ≡ false) s symbol_no_break refl h))
    ∙ quartets-encode s h
