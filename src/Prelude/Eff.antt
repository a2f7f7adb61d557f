-- ===== src/Prelude/Eff.antt =====
-- Stateful code: a call takes the state and returns its value with the state after it. A Go call
-- that returns an error is such a call with a `Result` for its value.
abbrev pub Eff {ℓ κ} : Type ℓ → Type κ → Type (ℓ ⊔ κ)
Eff S A = S → A × S

infixl 10 ◌>>=◌ ◌>>◌
abbrev pub ◌>>=◌ {ℓ κ λ'} :
    {S : Type ℓ} {A : Type κ} {B : Type λ'} → Eff S A → (A → Eff S B) → Eff S B
◌>>=◌ m f s = let r = m s in f r.0 r.1

abbrev pub ◌>>◌ {ℓ κ λ'} : {S : Type ℓ} {A : Type κ} {B : Type λ'} → Eff S A → Eff S B → Eff S B
m >> n = m >>= λ _. n

abbrev pub return {ℓ κ} : {S : Type ℓ} {A : Type κ} → A → Eff S A
return a s = (a, s)
