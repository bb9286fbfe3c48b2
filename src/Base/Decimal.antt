-- ===== src/Base/Decimal.antt =====
-- strconv.Itoa and strconv.Atoi, on the bytes of the text.
use policy_manager.Base.Tests.{ltb, leb, eqb, if◌then◌else◌}
use policy_manager.Base.Int.{ℤ, pos, negsuc}
use policy_manager.Base.Lists.{All}
use Prim.Native.Nat.{ℕ, zero, suc, ◌+◌, ◌-◌, ◌*◌, ◌/◌, ◌%◌, ◌^◌, ◌≤◌, ◌<◌}
use mathlib.Core.Path.{◌≡◌, refl, ap, ◌∙◌}
use mathlib.Core.Bool.{Bool, true, false, ◌&&◌}
use mathlib.Core.Option.{Option, none, some}
use mathlib.Core.List.{List, [], ◌∷◌}
use native.Mathlib.Omega.{arith}

-- The decimal digits of a number before the bytes that are there, twenty at most.
digits : ℕ → ℕ → List ℕ → List ℕ
digits zero n out = out
digits (suc rounds) n out =
    if ltb n 10 then (b'0' + n) ∷ out else digits rounds (n / 10) ((b'0' + n % 10) ∷ out)

decimal : ℕ → List ℕ
unfolding digits
decimal n = digits 20 n []

unfoldable pub itoa : ℤ → List ℕ
unfolding decimal
itoa (pos n) = decimal n
itoa (negsuc n) = b'-' ∷ decimal (n + 1)

scan : List ℕ → ℕ → Option ℕ
scan [] acc = some acc
scan (c ∷ s) acc = if leb b'0' c && leb c b'9' then scan s (acc * 10 + (c - b'0')) else none

-- At least one digit, and nothing else.
unsigned : List ℕ → Option ℕ
unfolding scan
unsigned [] = none
unsigned (c ∷ s) = scan (c ∷ s) 0

-- The range of int64.
in_range : Option ℕ → Option ℤ
in_range none = none
in_range (some n) = if ltb n (2 ^ 63) then some (pos n) else none

negated : Option ℕ → Option ℤ
negated none = none
negated (some zero) = some (pos 0)
negated (some (suc n)) = if ltb n (2 ^ 63) then some (negsuc n) else none

unfoldable pub atoi : List ℕ → Option ℤ
unfolding unsigned in_range negated
atoi [] = none
atoi (c ∷ s) =
    if eqb c b'-'
    then negated (unsigned s)
    else if eqb c b'+'
    then in_range (unsigned s)
    else in_range (unsigned (c ∷ s))

pow10 : ℕ → ℕ
pow10 zero = 1
pow10 (suc k) = 10 * pow10 k

-- Reading the digits of a number leaves the number as the accumulator.
scan-digits :
    (rounds n : ℕ) (out : List ℕ) → n < pow10 rounds → scan (digits rounds n out) 0 ≡ scan out n
unfolding digits scan pow10
scan-digits zero n out h = ground arith
scan-digits (suc rounds) n out h =
    ground (arith, scan-digits rounds (n / 10) ((b'0' + n % 10) ∷ out))

abbrev StartsWithDigit : List ℕ → Type 0
StartsWithDigit [] = ⊥
StartsWithDigit (c ∷ s) = (b'0' ≤ c) × (c ≤ b'9')

-- A round puts a digit in front, whatever the test says.
if_digit :
    (b : Bool) (xs ys : List ℕ)
    → (b ≡ true → StartsWithDigit xs)
    → StartsWithDigit ys
    → StartsWithDigit (if b then xs else ys)
if_digit true xs ys h k = h refl
if_digit false xs ys h k = k

digits-StartsWithDigit :
    (rounds n c : ℕ) (out : List ℕ)
    → StartsWithDigit (c ∷ out)
    → StartsWithDigit (digits rounds n (c ∷ out))
unfolding digits
digits-StartsWithDigit zero n c out h = h
digits-StartsWithDigit (suc rounds) n c out h =
    if_digit (ltb n 10) ((b'0' + n) ∷ c ∷ out) (digits rounds (n / 10) ((b'0' + n % 10) ∷ c ∷ out))
      (λ small. ground arith)
      (digits-StartsWithDigit rounds (n / 10) (b'0' + n % 10) (c ∷ out) (omega arith))

decimal-StartsWithDigit : (n : ℕ) → StartsWithDigit (decimal n)
unfolding decimal
decimal-StartsWithDigit n =
    if_digit (ltb n 10) ((b'0' + n) ∷ []) (digits 19 (n / 10) ((b'0' + n % 10) ∷ []))
      (λ small. ground arith) (digits-StartsWithDigit 19 (n / 10) (b'0' + n % 10) [] (omega arith))

if_ascii :
    (b : Bool) (xs ys : List ℕ)
    → (b ≡ true → All (λ c. c < 128) xs)
    → All (λ c. c < 128) ys
    → All (λ c. c < 128) (if b then xs else ys)
if_ascii true xs ys h k = h refl
if_ascii false xs ys h k = k

digits-ascii :
    (rounds n : ℕ) (out : List ℕ)
    → All (λ c. c < 128) out
    → All (λ c. c < 128) (digits rounds n out)
unfolding digits
digits-ascii zero n out h = h
digits-ascii (suc rounds) n out h =
    if_ascii (ltb n 10) ((b'0' + n) ∷ out) (digits rounds (n / 10) ((b'0' + n % 10) ∷ out))
      (λ small. (ground arith, h))
      (digits-ascii rounds (n / 10) ((b'0' + n % 10) ∷ out) (omega arith, h))

pub itoa-ascii : (n : ℕ) → All (λ c. c < 128) (itoa (pos n))
unfolding itoa decimal
itoa-ascii n = digits-ascii 20 n [] tt

atoi-digits : (s : List ℕ) → StartsWithDigit s → atoi s ≡ in_range (scan s 0)
unfolding atoi unsigned
atoi-digits [] h = absurd h
atoi-digits (c ∷ s) h = ground arith

below : (n : ℕ) → n < 2 ^ 63 → n < pow10 20
unfolding pow10
below n h = omega arith

scan-nil : (n : ℕ) → scan [] n ≡ some n
unfolding scan
scan-nil n = refl

in_range-some : (n : ℕ) → n < 2 ^ 63 → in_range (some n) ≡ some (pos n)
unfolding in_range
in_range-some n h = ground arith

scan-decimal : (n : ℕ) → n < 2 ^ 63 → scan (decimal n) 0 ≡ some n
unfolding decimal
scan-decimal n h = scan-digits 20 n [] (below n h) ∙ scan-nil n

-- Every number that an int64 holds is read back from its decimal print.
pub atoi-itoa : (n : ℕ) → n < 2 ^ 63 → atoi (itoa (pos n)) ≡ some (pos n)
unfolding itoa
atoi-itoa n h =
    atoi-digits (decimal n) (decimal-StartsWithDigit n)
    ∙ ap in_range (scan-decimal n h)
    ∙ in_range-some n h
