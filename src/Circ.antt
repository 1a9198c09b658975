-- ===== src/Circ.antt =====
-- The circular buffers of the driver, `struct circ_buf` with power-of-two sizes, as completion
-- queues and work queues share them: the invariant of size and indices, and what the macros of
-- linux/circ_buf.h and the code's own step of an index compute under it.
use dis_kverbs.Common.{ap, refl, ℕ, ◌*◌, ◌+◌, ◌-◌, ◌%◌, ◌^◌, ◌≤◌, ◌<◌, ◌≡◌, arith, ltb, not}
use dis_kverbs.Common.Mask.{pow-le_of_lt, used-lt, used-add-free}
use dis_kverbs.Common.Ring.{ring_used}
use dis_kverbs.Kernel.{CircBuf, RoundUp}
use dis_kverbs.Verbs.{u32, circ_next, circ_next_lem}

pub record IsRing (size head tail slots : ℕ) : Type 0 where
  pub log : ℕ
  pub is_pow : size ≡ 2 ^ log
  pub small : size ≤ 2 ^ 31
  pub filled : slots ≡ size
  pub head_in : head < size
  pub tail_in : tail < size

-- A number of slots for `n` entries: a power of two, at least `n` and less than twice as many.
pub record IsSize (n size : ℕ) : Type 0 where
  pub log : ℕ
  pub is_pow : size ≡ 2 ^ log
  pub small : size ≤ 2 ^ 31
  pub enough : n ≤ size
  pub few : size < 2 * n

-- What the code rounds a number of entries to.
pub roundup-IsSize :
    (r : RoundUp) (n : ℕ) → 0 < n → n ≤ 2 ^ 31 → IsSize n (u32 (r.roundup_pow_of_two (u32 n)))
roundup-IsSize r n pos small = record {
  log = r.log n;
  is_pow = size_eq;
  small = omega (arith, size_eq, fits);
  enough = omega (arith, size_eq, law);
  few = omega (arith, size_eq, law);
}
  where
    request : u32 n ≡ n
    request = omega arith

    law : (r.roundup_pow_of_two n ≡ 2 ^ r.log n) × (n ≤ 2 ^ r.log n) × (2 ^ r.log n < 2 * n)
    law = r.roundup_lem n pos small

    fits : 2 ^ r.log n ≤ 2 ^ 31
    fits = pow-le_of_lt (r.log n) 31 (omega (arith, law))

    size_eq : u32 (r.roundup_pow_of_two (u32 n)) ≡ 2 ^ r.log n
    size_eq = omega (arith, ap r.roundup_pow_of_two request, law, fits)

-- A new buffer of that size.
pub IsSize-IsRing : {n size : ℕ} → IsSize n size → 0 < n → IsRing size 0 0 size
IsSize-IsRing s pos = record {
  log = s.log;
  is_pow = s.is_pow;
  small = s.small;
  filled = refl;
  head_in = omega (arith, s.enough);
  tail_in = omega (arith, s.enough);
}

module _ {size head tail slots : ℕ} (r : IsRing size head tail slots) where
  open r use {log, is_pow, small, filled, head_in, tail_in}

  pub ring_used-lt : ring_used size head tail < size
  ring_used-lt = used-lt size head tail head_in tail_in

  pub circ_next-head : circ_next head size ≡ (head + 1) % size
  circ_next-head = rw is_pow (circ_next_lem log head (omega arith) (omega arith))

  pub circ_next-tail : circ_next tail size ≡ (tail + 1) % size
  circ_next-tail = rw is_pow (circ_next_lem log tail (omega arith) (omega arith))

  pub IsRing-next_head : IsRing size (circ_next head size) tail slots
  IsRing-next_head = record {
    log = log;
    is_pow = is_pow;
    small = small;
    filled = filled;
    head_in = rw circ_next-head (omega arith);
    tail_in = tail_in;
  }

  pub IsRing-next_tail : IsRing size head (circ_next tail size) slots
  IsRing-next_tail = record {
    log = log;
    is_pow = is_pow;
    small = small;
    filled = filled;
    head_in = head_in;
    tail_in = rw circ_next-tail (omega arith);
  }

  module _ (c : CircBuf) where
    pub circ_cnt-eq-used : c.circ_cnt head tail size ≡ ring_used size head tail
    circ_cnt-eq-used = rw is_pow (c.circ_cnt_lem log head tail (omega arith) (omega arith))

    pub used-add-space : ring_used size head tail + c.circ_space head tail size + 1 ≡ size
    used-add-space = omega (arith, space, used-add-free size head tail head_in tail_in)
      where
        space : c.circ_space head tail size ≡ (tail + size - (head + 1)) % size
        space = rw is_pow (c.circ_space_lem log head tail (omega arith) (omega arith))

    -- The code's test for a full buffer: one slot always stays empty.
    pub full_test :
        ltb (c.circ_space head tail size) 1 ≡ not (ltb (ring_used size head tail + 1) size)
    full_test = ground (arith, used-add-space)

    -- The code's test for an empty buffer.
    pub empty_test : ltb (c.circ_cnt head tail size) 1 ≡ not (ltb 0 (ring_used size head tail))
    empty_test = ground (arith, circ_cnt-eq-used)
