-- ===== src/Cq/Inv.antt =====
-- The representation invariant of `struct dis_cq`, and the entries that a queue holds.
use dis_kverbs.Common.{
  ℕ, ◌+◌, ◌*◌, ◌^◌, ◌≤◌, ◌<◌, ◌≡◌, arith, List, [], length, length-replicate, replicate, true,
  false, refl,
}
use dis_kverbs.Common.Mask.{used_self}
use dis_kverbs.Common.Ring.{ring_contents_empty, ring_used, ring_contents, length-ring_contents}
use dis_kverbs.Kernel.{RoundUp}
use dis_kverbs.Verbs.{done, fail, DisCqe, DisCq, zero_cqe, u32}
use dis_kverbs.Circ.{IsRing, roundup-IsSize, IsSize-IsRing}
use dis_kverbs.Cq.{dis_create_cq}

-- The buffer has `cqe_max` slots, a power of two, and both indices lie inside.
pub record IsValid (cq : DisCq) : Type 0 where
  pub ring : IsRing cq.cqe_max cq.head cq.tail (length cq.buf)

-- The number of entries that wait.
abbrev pub used : DisCq → ℕ
used cq = ring_used cq.cqe_max cq.head cq.tail

-- The entries that wait, oldest first.
abbrev pub contents : DisCq → List DisCqe
contents cq = ring_contents zero_cqe cq.buf cq.cqe_max cq.head cq.tail

pub length-contents : (cq : DisCq) → length (contents cq) ≡ used cq
length-contents cq = length-ring_contents zero_cqe cq.buf cq.cqe_max cq.head cq.tail

-- Creating a queue for `cqe` entries, less than 2^31 of them, in an object whose indices are 0: with
-- memory it returns 0, and the queue is valid, empty, and has `cqe_max` slots, more than `cqe` and
-- fewer than `2 * cqe + 2`, which `ibcq->cqe` tells. Without memory it returns -42 and no buffer.
pub dis_create_cq_lem :
    (r : RoundUp) (cq : DisCq) (cqe : ℕ)
    → cq.head ≡ 0
    → cq.tail ≡ 0
    → cqe + 1 ≤ 2 ^ 31
    → let (ret, cq') = dis_create_cq r cq cqe true in
      let (ret_err, cq_err) = dis_create_cq r cq cqe false in
      (ret ≡ done)
      × IsValid cq'
      × (contents cq' ≡ [])
      × (cqe < cq'.cqe_max)
      × (cq'.cqe_max < 2 * cqe + 2)
      × (cq'.ib_cqe ≡ cq'.cqe_max)
      × (ret_err ≡ fail 42)
      × (cq_err.buf ≡ [])
unfolding dis_create_cq
dis_create_cq_lem r cq cqe h0 t0 small =
    let sized = roundup-IsSize r (cqe + 1) (omega arith) small in
    let n = u32 (r.roundup_pow_of_two (u32 (cqe + 1))) in
    (
      refl,
      record {
        ring = rw (h0, t0, length-replicate n zero_cqe) (IsSize-IsRing sized (omega arith));
      },
      ring_contents_empty zero_cqe (replicate n zero_cqe) n cq.head cq.tail
          (rw (h0, t0) (used_self n 0)),
      omega (arith, sized.enough),
      omega (arith, sized.few),
      refl,
      refl,
      refl,
    )
