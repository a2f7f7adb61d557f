-- ===== src/Prelude/Results.antt =====
-- A Go result `(A, error)`: the value, or the error, over any type of errors.
use mathlib.Core.Path.{◌≡◌, refl}
use mathlib.Core.Bool.{Bool, true, false}

pub data Result {ℓ κ} (E : Type κ) (A : Type ℓ) : Type (ℓ ⊔ κ) where
  err : E → Result E A
  ok : A → Result E A

-- `err == nil`
abbrev pub is_ok {ℓ κ} : {E : Type κ} {A : Type ℓ} → Result E A → Bool
is_ok (err _) = false
is_ok (ok _) = true

-- `if err != nil { return err }`, then the rest.
infixl 10 ◌>>=◌
abbrev pub ◌>>=◌ {ℓ ℓ' κ} :
    {A : Type ℓ} {A' : Type ℓ'} {E : Type κ} → Result E A → (A → Result E A') → Result E A'
r >>= rest = elim r [ err e ↦ err e | ok a ↦ rest a ]

-- What a chain that succeeds went through.
pub >>=-eq-ok {ℓ ℓ' κ} :
    {A : Type ℓ} {A' : Type ℓ'} {E : Type κ} (r : Result E A) (rest : A → Result E A') {b : A'}
    → (r >>= rest) ≡ ok b
    → (a : A) × (r ≡ ok a) × (rest a ≡ ok b)
>>=-eq-ok (err _) rest h = cc
>>=-eq-ok (ok a) rest h = (a, refl, h)
