-- ===== src/Prelude/Int.antt =====
-- The C++ type int of 32 bits, as far as the server counts with it: up and down by one, with the range
-- that the result has to be in.
use Prim.Native.Nat.{ℕ, zero, suc, ◌-◌, ◌^◌}
use mathlib.Core.Bool.{Bool, false}
use dora_foxglove.Prelude.Tests.{◌==◌, ltb}

-- `negsuc n` is -(n + 1).
pub data ℤ : Type 0 where
  pos : ℕ → ℤ
  negsuc : ℕ → ℤ

abbrev pub increment : ℤ → ℤ
increment (pos n) = pos (suc n)
increment (negsuc zero) = pos 0
increment (negsuc (suc n)) = negsuc n

abbrev pub decrement : ℤ → ℤ
decrement (pos zero) = negsuc 0
decrement (pos (suc n)) = pos n
decrement (negsuc n) = negsuc (suc n)

-- A comparison with a number that is not negative.
abbrev pub is_nat : ℤ → ℕ → Bool
is_nat (pos n) k = n == k
is_nat (negsuc n) k = false

-- Is the number in the range of an int?
abbrev pub fits_int : ℤ → Bool
fits_int (pos n) = ltb n (2 ^ 31)
fits_int (negsuc n) = ltb n (2 ^ 31)

-- The int with the same 32 bits as a number that is one out of the range.
abbrev pub wrapped : ℤ → ℤ
wrapped (pos n) = negsuc (2 ^ 32 - 1 - n)
wrapped (negsuc n) = pos (2 ^ 32 - 1 - n)
