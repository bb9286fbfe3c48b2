-- ===== src/Base/Results.antt =====
-- Go's `(T, error)` results: a value, or an error of the type that the function returns.
use mathlib.Core.Path.{◌≡◌, refl}
use mathlib.Core.Logic.{◌⊎◌, inl, inr}

pub data Result {ℓ κ} (E : Type ℓ) (A : Type κ) : Type (ℓ ⊔ κ) where
  ok : A → Result E A
  err : E → Result E A

-- Either outcome of a call, with its value.
pub Result-cases {ℓ κ} :
    {E : Type ℓ} {A : Type κ} (result : Result E A)
    → ((value : A) × (result ≡ ok value)) ⊎ ((e : E) × (result ≡ err e))
Result-cases (err e) = inr (e, refl)
Result-cases (ok value) = inl (value, refl)

-- `if err != nil { return wrap(err) }`
abbrev pub map_err {ℓ κ μ} :
    {E : Type ℓ} {H : Type κ} {A : Type μ} → (E → H) → Result E A → Result H A
map_err wrap (err e) = err (wrap e)
map_err wrap (ok value) = ok value

-- `if err != nil { return err }` before the rest of the function.
infixl 5 ◌>>=◌
abbrev pub ◌>>=◌ {ℓ κ μ} :
    {E : Type ℓ} {A : Type κ} {B : Type μ} → Result E A → (A → Result E B) → Result E B
err e >>= rest = err e
ok value >>= rest = rest value

-- A function that returns only an error.
infixl 5 ◌>>◌
abbrev pub ◌>>◌ {ℓ κ} : {E : Type ℓ} {B : Type κ} → Result E (Unit {0}) → Result E B → Result E B
call >> rest = call >>= λ success. rest

-- A function that succeeds has passed each of its calls.
pub >>=-eq-ok {ℓ κ μ} :
    {E : Type ℓ} {A : Type κ} {B : Type μ} (call : Result E A) (rest : A → Result E B) {result : B}
    → (call >>= rest) ≡ ok result
    → (value : A) × (call ≡ ok value) × (rest value ≡ ok result)
>>=-eq-ok (err e) rest returned = cc
>>=-eq-ok (ok value) rest returned = (value, refl, returned)

-- An error that is returned has `P`.
abbrev pub Fails {ℓ κ μ} : {E : Type ℓ} {A : Type κ} → (E → Type μ) → Result E A → Type μ
Fails P (err e) = P e
Fails P (ok value) = Unit

pub Fails->>= {ℓ κ μ ν} :
    {E : Type ℓ} {A : Type κ} {B : Type μ} (P : E → Type ν) (call : Result E A)
    (rest : A → Result E B)
    → Fails P call
    → ((value : A) → Fails P (rest value))
    → Fails P (call >>= rest)
Fails->>= P (err e) rest h k = h
Fails->>= P (ok value) rest h k = k value

pub Fails-map_err {ℓ κ μ ν} :
    {E : Type ℓ} {H : Type κ} {A : Type μ} (P : H → Type ν) (wrap : E → H) (call : Result E A)
    → ((e : E) → P (wrap e))
    → Fails P (map_err wrap call)
Fails-map_err P wrap (err e) h = h e
Fails-map_err P wrap (ok value) h = tt
