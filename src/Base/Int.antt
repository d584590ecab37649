-- ===== src/Base/Int.antt =====
-- Integers over the native numbers. `negsuc n` is -(n + 1).
use Prim.Native.Nat.{ℕ}
use mathlib.Core.Bool.{Bool, true, false}
use mathlib.Core.Path.{◌≡◌, ap}
use native.Mathlib.Decide.{ℕ_discrete}
use native.Mathlib.Omega.{arith}
use nan_itself.Base.Equality.{Eq}

pub data ℤ : Type 0 where
  pos : ℕ → ℤ
  negsuc : ℕ → ℤ

-- `z < 0`
abbrev pub is_negative : ℤ → Bool
is_negative (pos n) = false
is_negative (negsuc n) = true

abbrev magnitude : ℤ → ℕ
magnitude (pos n) = n
magnitude (negsuc n) = n

abbrev same_pos : (m n : ℕ) → Dec (m ≡ n) → Dec (pos m ≡ pos n)
same_pos m n (yes p) = yes (ap pos p)
same_pos m n (no q) = no (λ e. q (ap magnitude e))

abbrev same_negsuc : (m n : ℕ) → Dec (m ≡ n) → Dec (negsuc m ≡ negsuc n)
same_negsuc m n (yes p) = yes (ap negsuc p)
same_negsuc m n (no q) = no (λ e. q (ap magnitude e))

ℤ_discrete : Discrete ℤ
unfolding ℕ_discrete
ℤ_discrete (pos m) (pos n) = same_pos m n (ℕ_discrete m n)
ℤ_discrete (pos m) (negsuc n) = no (λ e. ground arith)
ℤ_discrete (negsuc m) (pos n) = no (λ e. ground arith)
ℤ_discrete (negsuc m) (negsuc n) = same_negsuc m n (ℕ_discrete m n)

instance unfoldable pub int_eq : Eq ℤ
unfolding ℤ_discrete
int_eq = record { dec = ℤ_discrete }
