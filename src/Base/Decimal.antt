-- ===== src/Base/Decimal.antt =====
-- The decimal digits of a number, as `String(n)` writes them.
use Prim.Native.Nat.{ℕ, zero, suc, ◌+◌, ◌-◌, ◌*◌, ◌/◌, ◌%◌, ◌<◌}
use mathlib.Core.Path.{◌≡◌, sym, ap, ◌∙◌}
use mathlib.Core.List.{[], ◌∷◌}
use native.Mathlib.Omega.{arith}
use genie_cloud.Base.Tests.{ltb, if◌then◌else◌, if-elim}
use genie_cloud.Base.Texts.{Text}

unfoldable pub digits : ℕ → ℕ → Text → Text
digits zero n done = done
digits (suc fuel) n done =
    let rest = digits fuel (n / 10) ((48 + n % 10) ∷ done) in
    if ltb n 10 then (48 + n) ∷ done else rest

unfoldable pub decimal : ℕ → Text
unfolding digits
decimal n = digits (suc n) n []

-- The number that digits are read as, after a number.
abbrev pub number_of : ℕ → Text → ℕ
number_of v [] = v
number_of v (d ∷ s) = number_of (v * 10 + (d - 48)) s

number_of-digits :
    (fuel n : ℕ) (done : Text) → n < fuel → number_of 0 (digits fuel n done) ≡ number_of n done
unfolding digits
number_of-digits zero n done h = absurd (omega (arith, h))
number_of-digits (suc fuel) n done h =
    if-elim (λ t. number_of 0 t ≡ number_of n done) (ltb n 10)
      (λ e. ap (λ v. number_of v done) (omega arith))
      (λ e.
        number_of-digits fuel (n / 10) _ (ground arith) ∙ ap (λ v. number_of v done) (omega arith))

pub decimal-injective : (m n : ℕ) → decimal m ≡ decimal n → m ≡ n
unfolding decimal
decimal-injective m n h =
    sym (number_of-digits (suc m) m [] (omega arith))
    ∙ ap (number_of 0) h
    ∙ number_of-digits (suc n) n [] (omega arith)
