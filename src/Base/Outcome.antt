-- ===== src/Base/Outcome.antt =====
-- What a Go function with the results `(value, error)` returns: one of the two. Each component has a
-- type of errors of its own.
use mathlib.Core.Path.{◌≡◌, refl, sym, ap, ◌∙◌}
use mathlib.Core.Logic.{◌⊎◌, inl, inr}
use mathlib.Core.Bool.{Bool, true, false}

pub data Result {ℓ} (E : Type 0) (A : Type ℓ) : Type ℓ where
  err : E → Result E A
  ok : A → Result E A

module _ {ℓ} {E : Type 0} where
  -- `if err != nil { return err }` before the rest.
  infixl 5 ◌>>=◌ ◌>>◌
  abbrev pub ◌>>=◌ {κ} : {B : Type κ} {A : Type ℓ} → Result E A → (A → Result E B) → Result E B
  err e >>= rest = err e
  ok a >>= rest = rest a

  abbrev pub ◌>>◌ : {B : Type ℓ} → Result E (Unit {0}) → Result E B → Result E B
  err e >> rest = err e
  ok done >> rest = rest

  pub Result-cases :
      {A : Type ℓ} (r : Result E A) → ((e : E) × (r ≡ err e)) ⊎ ((a : A) × (r ≡ ok a))
  Result-cases (err e) = inl (e, refl)
  Result-cases (ok a) = inr (a, refl)

  abbrev pub is_ok : {A : Type ℓ} → Result E A → Bool
  is_ok (err e) = false
  is_ok (ok a) = true

pub ok_injective {ℓ} :
    {E : Type 0} {A : Type ℓ} {r : Result E A} (x y : A) → r ≡ ok x → r ≡ ok y → x ≡ y
ok_injective {E = E} {A = A} x y e f = ap value_of (sym e ∙ f)
  where
    value_of : Result E A → A
    value_of (err bad) = x
    value_of (ok z) = z

-- `if bad { return e }`
abbrev pub refuse_if : {E : Type 0} → Bool → E → Result E (Unit {0})
refuse_if false e = ok tt
refuse_if true e = err e
