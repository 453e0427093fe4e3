-- ===== src/Prelude/Int.antt =====
-- Signed integers over the native numbers, as far as the counters of the program need them.
use Prim.Native.Nat.{ℕ, zero, suc, ◌+◌, ◌-◌}
use siesta.Prelude.Tests.{leb, if◌then◌else◌}

-- `negsuc n` is -(n + 1).
pub data ℤ : Type 0 where
  pos : ℕ → ℤ
  negsuc : ℕ → ℤ

-- z - 1
abbrev pub pred_ℤ : ℤ → ℤ
pred_ℤ (pos zero) = negsuc 0
pred_ℤ (pos (suc n)) = pos n
pred_ℤ (negsuc n) = negsuc (suc n)

-- z + n
abbrev pub add_ℕ : ℤ → ℕ → ℤ
add_ℕ (pos m) n = pos (m + n)
add_ℕ (negsuc m) n = if leb n m then negsuc (m - n) else pos (n - m - 1)
