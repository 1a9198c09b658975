-- ===== src/Verbs/Words.antt =====
-- Arithmetic of the machine words that the driver computes with, wrap-around included, and the step
-- of an index round a circular buffer.
use dis_kverbs.Common.{ℕ, ◌+◌, ◌-◌, ◌%◌, ◌^◌, ◌≤◌, ◌<◌, ◌≡◌, arith, bit_and}
use dis_kverbs.Common.Mask.{bit_and_mask}
use native.Mathlib.Nat.{one-le-pow}

abbrev pub u16 : ℕ → ℕ
u16 n = n % 2 ^ 16

abbrev pub u32 : ℕ → ℕ
u32 n = n % 2 ^ 32

abbrev pub u64 : ℕ → ℕ
u64 n = n % 2 ^ 64

abbrev pub sub64 : ℕ → ℕ → ℕ
sub64 a b = (a + 2 ^ 64 - b) % 2 ^ 64

-- `(i + 1) & (size - 1)`, with a 64-bit index and a 32-bit size.
unfoldable pub circ_next : ℕ → ℕ → ℕ
circ_next i size = bit_and (u64 (i + 1)) (u32 (size + 2 ^ 32 - 1))

-- For a power of two of at most 2^31 slots the step goes round the buffer.
pub circ_next_lem : (k i : ℕ) → 2 ^ k ≤ 2 ^ 31 → i < 2 ^ k → circ_next i (2 ^ k) ≡ (i + 1) % 2 ^ k
unfolding circ_next
circ_next_lem k i small lt = rw (index, mask) (bit_and_mask k (i + 1))
  where
    index : u64 (i + 1) ≡ i + 1
    index = omega arith

    mask : u32 (2 ^ k + 2 ^ 32 - 1) ≡ 2 ^ k - 1
    mask = omega (arith, one-le-pow k 2 (omega arith))
