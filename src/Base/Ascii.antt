-- ===== src/Base/Ascii.antt =====
-- Texts as the codes of their characters: the bytes of a text that is ASCII.
use Prim.Native.Char.{Char, char, code, IsScalar, nul}
use Prim.Native.Nat.{ℕ, ◌<◌}
use Prim.Native.String.{String}
use mathlib.Core.Path.{◌≡◌, refl}
use mathlib.Core.List.{List, [], ◌∷◌}
use native.Mathlib.Omega.{arith}
use native.Mathlib.Decide.{dec_lt}
use policy_manager.Base.Lists.{All}

unfoldable pub codes : String → List ℕ
codes String.[] = []
codes (String.◌∷◌ c s) = code c ∷ codes s

ascii_scalar : (n : ℕ) → n < 128 → IsScalar n
ascii_scalar n h = ground arith

-- The character of an ASCII code.
ascii_of : (n : ℕ) → Dec (n < 128) → Char
unfolding ascii_scalar
ascii_of n (yes h) = char n (ascii_scalar n h)
ascii_of n (no h) = nul

ascii : ℕ → Char
unfolding ascii_of dec_lt
ascii n = ascii_of n (dec_lt n 128)

unfoldable pub text_of : List ℕ → String
unfolding ascii
text_of [] = ""
text_of (n ∷ ns) = String.◌∷◌ (ascii n) (text_of ns)

code-ascii_of : (n : ℕ) (d : Dec (n < 128)) → n < 128 → code (ascii_of n d) ≡ n
unfolding ascii_of
code-ascii_of n (yes p) h = refl
code-ascii_of n (no p) h = absurd (p h)

pub codes-text_of : (ns : List ℕ) → All (λ n. n < 128) ns → codes (text_of ns) ≡ ns
unfolding codes text_of ascii
codes-text_of [] h = refl
codes-text_of (n ∷ ns) h = λ i. code-ascii_of n (dec_lt n 128) h.0 i ∷ codes-text_of ns h.1 i
