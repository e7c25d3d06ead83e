-- ===== src/Prelude/Outcome.antt =====
-- What a Go call comes to: a result, an `error` that it returns, or a run-time panic.
use mathlib.Core.Path.{◌≡◌, refl, ap, subst⁻¹}
use mathlib.Core.Logic.{◌⊎◌, inl, inr}

-- The errors that the modelled code makes or passes on.
pub data Error : Type 0 where
  rule_not_found : Error
  payload_is_empty : Error
  invalid_upstream_status_code : Error
  upstream_failed : Error

pub data Outcome {ℓ} (A : Type ℓ) : Type ℓ where
  ok : A → Outcome A
  err : Error → Outcome A
  panic : Outcome A

infixl 5 ◌>>=◌
abbrev pub ◌>>=◌ {ℓ κ} : {A : Type ℓ} {B : Type κ} → Outcome A → (A → Outcome B) → Outcome B
ok a >>= f = f a
err e >>= f = err e
panic >>= f = panic

module _ {ℓ} {A : Type ℓ} where
  pub Outcome-cases :
      (o : Outcome A) → ((a : A) × (o ≡ ok a)) ⊎ ((e : Error) × (o ≡ err e)) ⊎ (o ≡ panic)
  Outcome-cases (ok a) = inl (a, refl)
  Outcome-cases (err e) = inr (inl (e, refl))
  Outcome-cases panic = inr (inr refl)

  result_or : A → Outcome A → A
  result_or a (ok b) = b
  result_or a (err e) = a
  result_or a panic = a

  abbrev IsOk : Outcome A → Type 0
  IsOk (ok a) = Unit
  IsOk (err e) = ⊥
  IsOk panic = ⊥

  pub ok_injective : (a b : A) → ok a ≡ ok b → a ≡ b
  unfolding result_or
  ok_injective a b h = ap (result_or a) h

  pub err_not_ok : (e : Error) (a : A) → err e ≡ ok a → ⊥
  err_not_ok e a h = subst⁻¹ IsOk h tt

  pub panic_not_ok : (a : A) → panic ≡ ok a → ⊥
  panic_not_ok a h = subst⁻¹ IsOk h tt

-- A chain that ends well went well so far.
pub bind_ok {ℓ} :
    {A B : Type ℓ} (o : Outcome A) (k : A → Outcome B) (b : B)
    → (o >>= k) ≡ ok b
    → (a : A) × (o ≡ ok a) × (k a ≡ ok b)
bind_ok (ok a) k b h = (a, refl, h)
bind_ok (err e) k b h = absurd (err_not_ok e b h)
bind_ok panic k b h = absurd (panic_not_ok b h)
