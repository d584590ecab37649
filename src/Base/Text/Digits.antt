-- ===== src/Base/Text/Digits.antt =====
-- Numbers are told apart by their decimals.
use Prim.Native.Nat.{ℕ, zero, suc, ◌+◌, ◌*◌, ◌-◌, ◌/◌, ◌%◌, ◌≤◌, ◌<◌}
use Prim.Native.Char.{code}
use text.Mathlib.TextLemmas.{nil-append, cons-append}
use Prim.Native.String.{String, ◌++◌}
use mathlib.Core.Path.{◌≡◌, sym, ap, ◌∙◌}
use mathlib.Core.Logic.{inl, inr}
use native.Mathlib.Omega.{arith}
use nan_itself.Base.Tests.{ltb, Bool-cases}
use nan_itself.Base.Text.{digit, decimal_from, decimal}

-- The number that a text of digits stands for, after the digits of `n`.
value : ℕ → String → ℕ
value n String.[] = n
value n (String.◌∷◌ c s) = value (n * 10 + (code c - 48)) s

value-append : (n : ℕ) (s t : String) → value n (s ++ t) ≡ value (value n s) t
unfolding value
value-append n String.[] t = ap (value n) (nil-append t)
value-append n (String.◌∷◌ c s) t =
    ap (value n) (cons-append c s t) ∙ value-append (n * 10 + (code c - 48)) s t

value-digit : (n d : ℕ) → (d < 10) → value n (digit d) ≡ n * 10 + d
unfolding value
value-digit n zero h = omega arith
value-digit n (suc zero) h = omega arith
value-digit n (suc (suc zero)) h = omega arith
value-digit n (suc (suc (suc zero))) h = omega arith
value-digit n (suc (suc (suc (suc zero)))) h = omega arith
value-digit n (suc (suc (suc (suc (suc zero))))) h = omega arith
value-digit n (suc (suc (suc (suc (suc (suc zero)))))) h = omega arith
value-digit n (suc (suc (suc (suc (suc (suc (suc zero))))))) h = omega arith
value-digit n (suc (suc (suc (suc (suc (suc (suc (suc zero)))))))) h = omega arith
value-digit n (suc (suc (suc (suc (suc (suc (suc (suc (suc d))))))))) h = omega arith

value-decimal_from : (fuel n : ℕ) → n ≤ fuel → value 0 (decimal_from fuel n) ≡ n
unfolding decimal_from
value-decimal_from zero n h = value-digit 0 n (omega arith) ∙ omega arith
value-decimal_from (suc fuel) n h = elim (Bool-cases (ltb n 10)) [
  | inl small ↦ rw small (value-digit 0 n (ground arith) ∙ omega arith)
  | inr large ↦ rw large (
      value-append 0 (decimal_from fuel (n / 10)) (digit (n % 10))
      ∙ ap (λ k. value k (digit (n % 10))) (value-decimal_from fuel (n / 10) (ground arith))
      ∙ value-digit (n / 10) (n % 10) (omega arith)
      ∙ omega arith)
]

pub decimal-injective : (m n : ℕ) → decimal m ≡ decimal n → m ≡ n
unfolding decimal
decimal-injective m n e =
    sym (value-decimal_from m m (omega arith))
    ∙ ap (value 0) e
    ∙ value-decimal_from n n (omega arith)
