-- ===== src/Base/Outcome.antt =====
-- A Go function's value or error, for the functions whose errors a caller tells apart.
use windows_llmmanager.Base.{◌≡◌, ◌⊎◌, inl, inr, refl}

pub data Outcome {ℓ} (E : Type 0) (A : Type ℓ) : Type ℓ where
  ok : A → Outcome E A
  err : E → Outcome E A

-- The return on an error, as in `if err != nil { return err }`.
infixl 5 ◌>>=◌
abbrev pub ◌>>=◌ {ℓ κ} :
    {E : Type 0} {A : Type ℓ} {B : Type κ} → Outcome E A → (A → Outcome E B) → Outcome E B
ok a >>= f = f a
err e >>= f = err e

pub Outcome-cases {ℓ} :
    {E : Type 0} {A : Type ℓ} (x : Outcome E A) → ((a : A) × (x ≡ ok a)) ⊎ ((e : E) × (x ≡ err e))
Outcome-cases (ok a) = inl (a, refl)
Outcome-cases (err e) = inr (e, refl)
