-- ===== src/Prelude/Results.antt =====
-- The pair `(value, error)` of a Go function whose value is read only where the error is nil.
use mathlib.Core.Path.{◌≡◌, refl, sym, ◌∙◌}

pub data Result {ℓ κ} (E : Type ℓ) (A : Type κ) : Type (ℓ ⊔ κ) where
  ok : A → Result E A
  err : E → Result E A

pub ok_injective {ℓ κ} :
    {E : Type ℓ} {A : Type κ} {a b : A} → (x : Result E A) → x ≡ ok a → x ≡ ok b → a ≡ b
ok_injective x h k = let e = sym h ∙ k in cc

infixl 5 ◌>>=◌ ◌>>◌
abbrev pub ◌>>=◌ {ℓ κ μ} :
    {E : Type ℓ} {A : Type κ} {B : Type μ} → Result E A → (A → Result E B) → Result E B
ok a >>= f = f a
err e >>= f = err e

abbrev pub ◌>>◌ {ℓ κ} : {E : Type ℓ} {B : Type κ} → Result E (Unit {0}) → Result E B → Result E B
m >> k = m >>= λ _. k

-- A chain that ends well has its first step end well.
pub bind-ok {ℓ κ μ} :
    {E : Type ℓ} {A : Type κ} {B : Type μ} (r : Result E A) (f : A → Result E B) {b : B}
    → (r >>= f) ≡ ok b
    → (a : A) × (r ≡ ok a) × (f a ≡ ok b)
bind-ok (ok a) f h = (a, refl, h)
bind-ok (err e) f h = cc
