-- ===== src/Base/Int.antt =====
-- Signed integers, and words of 64 bits, over the native numbers.
use Prim.Native.Nat.{ℕ, zero, suc, ◌+◌, ◌-◌, ◌%◌, ◌^◌}

-- `negsuc n` is -(n + 1)
pub data ℤ : Type 0 where
  pos : ℕ → ℤ
  negsuc : ℕ → ℤ

-- the negative of a number
abbrev pub neg_ℕ : ℕ → ℤ
neg_ℕ zero = pos zero
neg_ℕ (suc n) = negsuc n

abbrev pub word : ℕ
word = 2 ^ 64

-- the difference of two addresses as a `size_t`
unfoldable pub sub64 : ℕ → ℕ → ℕ
sub64 a b = (a + word - b) % word
