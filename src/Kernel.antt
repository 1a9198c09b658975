-- ===== src/Kernel.antt =====
-- What the driver uses of the Linux kernel and of no file of this repository: the index macros of
-- linux/circ_buf.h, roundup_pow_of_two of linux/log2.h, and pointers into allocated memory. The
-- macros are parameters with their documented laws.
pub mod Concrete
use dis_kverbs.Common.{ℕ, ◌+◌, ◌-◌, ◌*◌, ◌%◌, ◌^◌, ◌≤◌, ◌<◌, ◌≡◌}

-- CIRC_CNT(head, tail, size) and CIRC_SPACE(head, tail, size): for a size that is a power of two,
-- the slots from the tail up to the head, and from behind the head up to the one before the tail.
pub record CircBuf : Type 0 where
  pub circ_cnt : ℕ → ℕ → ℕ → ℕ
  pub circ_space : ℕ → ℕ → ℕ → ℕ
  pub circ_cnt_lem :
      (k h t : ℕ) → h < 2 ^ k → t < 2 ^ k → circ_cnt h t (2 ^ k) ≡ (h + 2 ^ k - t) % 2 ^ k
  pub circ_space_lem :
      (k h t : ℕ) → h < 2 ^ k → t < 2 ^ k → circ_space h t (2 ^ k) ≡ (t + 2 ^ k - (h + 1)) % 2 ^ k

-- roundup_pow_of_two(n), for an n whose rounding fits an unsigned 32-bit variable: the least power
-- of two that is not below n.
pub record RoundUp : Type 0 where
  pub roundup_pow_of_two : ℕ → ℕ
  pub log : ℕ → ℕ
  pub roundup_lem :
      (n : ℕ)
      → 0 < n
      → n ≤ 2 ^ 31
      → (roundup_pow_of_two n ≡ 2 ^ log n) × (n ≤ 2 ^ log n) × (2 ^ log n < 2 * n)
