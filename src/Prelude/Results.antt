-- ===== src/Prelude/Results.antt =====
-- A Go function that returns a value and an `error`.
pub data Result {ℓ κ} (E : Type κ) (A : Type ℓ) : Type (ℓ ⊔ κ) where
  ok : A → Result E A
  err : E → Result E A

infixl 5 ◌>>=◌ ◌>>◌
abbrev pub ◌>>=◌ {ℓ κ μ} :
    {E : Type κ} {A : Type ℓ} {B : Type μ} → Result E A → (A → Result E B) → Result E B
ok a >>= f = f a
err e >>= f = err e

abbrev pub ◌>>◌ {ℓ κ} : {E : Type κ} {B : Type ℓ} → Result E (Unit {0}) → Result E B → Result E B
m >> k = m >>= λ _. k
