-- ===== src/Base/Results.antt =====
-- A computation that may throw: the value, or the error.

use mathlib.Core.Path.{◌≡◌, refl, subst}

pub data Result {ℓ κ} (E : Type κ) (A : Type ℓ) : Type (ℓ ⊔ κ) where
  ok : A → Result E A
  err : E → Result E A

infixl 5 ◌>>=◌ ◌>>◌
abbrev pub ◌>>=◌ {ℓ κ μ} :
    {E : Type κ} {A : Type ℓ} {B : Type μ} → Result E A → (A → Result E B) → Result E B
ok a >>= f = f a
err e >>= f = err e

abbrev pub ◌>>◌ {κ μ} : {E : Type κ} {B : Type μ} → Result E (Unit {0}) → Result E B → Result E B
m >> k = m >>= λ _. k

-- What holds of the value, where there is one.
abbrev pub OnOk {ℓ κ} : {E : Type κ} {A : Type ℓ} → (A → Type 0) → Result E A → Type 0
OnOk P (ok a) = P a
OnOk P (err e) = Unit

pub OnOk-bind {ℓ κ μ} :
    {E : Type κ} {A : Type ℓ} {B : Type μ} (P : A → Type 0) (Q : B → Type 0) (m : Result E A)
    (f : A → Result E B)
    → OnOk P m
    → ((a : A) → P a → OnOk Q (f a))
    → OnOk Q (m >>= f)
OnOk-bind P Q (ok a) f p h = h a p
OnOk-bind P Q (err e) f p h = tt

pub OnOk-ok {ℓ κ} :
    {E : Type κ} {A : Type ℓ} (P : A → Type 0) (m : Result E A) (a : A) → OnOk P m → m ≡ ok a → P a
OnOk-ok P m a p e = subst (OnOk P) e p

pub OnOk-any {ℓ κ} : {E : Type κ} {A : Type ℓ} (m : Result E A) → OnOk (λ a. Unit) m
OnOk-any (ok a) = tt
OnOk-any (err e) = tt

-- The two parts of a chain that ends well.
pub record Bound {E A B : Type 0} (r : Result E A) (f : A → Result E B) (b : B) : Type 0 where
  pub value : A
  pub is_value : r ≡ ok value
  pub goes_on : f value ≡ ok b

pub two_steps :
    {E A B : Type 0} (r : Result E A) (f : A → Result E B) (b : B) → (r >>= f) ≡ ok b → Bound r f b
two_steps (err e) f b h = absurd cc
two_steps (ok a) f b h = record { value = a; is_value = refl; goes_on = h }
