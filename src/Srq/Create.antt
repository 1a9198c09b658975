-- ===== src/Srq/Create.antt =====
-- A new shared receive queue, and the first request that is posted to it.
use dis_kverbs.Common.{
  ℕ, ◌*◌, ◌^◌, ◌≤◌, ◌<◌, ◌≡◌, arith, List, [], ◌∷◌, Option, none, length-replicate, replicate, true,
  false, refl, ap, ◌∙◌,
}
use dis_kverbs.Common.Mask.{used_self}
use dis_kverbs.Common.Ring.{ring_contents_empty}
use dis_kverbs.Kernel.{CircBuf, RoundUp}
use dis_kverbs.Circ.{IsSize, roundup-IsSize, IsSize-IsRing}
use dis_kverbs.Verbs.{done, fail, Iovec, DisWq, wc_recv, zero_wqe, u32}
use dis_kverbs.Post.{IbWr, Mem, dis_qp_post_one_rqe}
use dis_kverbs.Post.Refused.{post_one_orphan}
use dis_kverbs.Qp.{post_all}
use dis_kverbs.Qp.PostList.{post_all_fault}
use dis_kverbs.Worker.Drain.{IsQueue, wq_waiting}
use dis_kverbs.Srq.{DisSrq, SrqAttr, dis_create_srq, dis_query_srq, dis_post_srq_recv, with_srq}

-- Creating a shared receive queue for `max_wr` requests, at least one and at most 2^31, in an object
-- whose indices are 0: with memory it returns 0, and the queue is in order, empty, and has at least
-- `max_wr` and fewer than `2 * max_wr` slots, the number that a query reports as its `max_wr`. Without
-- memory it returns -42 and no buffer.
pub dis_create_srq_lem :
    (r : RoundUp) (srq : DisSrq) (attr : SrqAttr)
    → srq.rq.head ≡ 0
    → srq.rq.tail ≡ 0
    → 0 < attr.max_wr
    → attr.max_wr ≤ 2 ^ 31
    → let (ret, srq') = dis_create_srq r srq attr true in
      let (ret_err, srq_err) = dis_create_srq r srq attr false in
      (ret ≡ done)
      × IsQueue srq'.rq
      × (wq_waiting srq'.rq ≡ [])
      × (attr.max_wr ≤ srq'.rq.wqe_max)
      × (srq'.rq.wqe_max < 2 * attr.max_wr)
      × (dis_query_srq srq' ≡ (done, srq'.rq.wqe_max, attr.max_sge, attr.srq_limit))
      × (ret_err ≡ fail 42)
      × (srq_err.rq.buf ≡ [])
unfolding dis_create_srq dis_query_srq
dis_create_srq_lem r srq attr h0 t0 some_wr small =
    let request : u32 attr.max_wr ≡ attr.max_wr = omega arith in
    let sized : IsSize attr.max_wr (u32 (r.roundup_pow_of_two attr.max_wr)) =
      rw request at (roundup-IsSize r attr.max_wr some_wr small) in
    let n = u32 (r.roundup_pow_of_two attr.max_wr) in
    (
      refl,
      record { ring = rw (h0, t0, length-replicate n zero_wqe) (IsSize-IsRing sized some_wr) },
      ring_contents_empty zero_wqe (replicate n zero_wqe) n srq.rq.head srq.rq.tail
          (rw (h0, t0) (used_self n 0)),
      omega (arith, sized.enough),
      omega (arith, sized.few),
      refl,
      refl,
      refl,
    )

module _ (c : CircBuf) (kmalloc : ℕ → Option (ℕ × List Iovec)) (mem : Mem) where
  orphan_post :
      (wq : DisWq) (wr : IbWr)
      → mem.pd_of wq.ibqp ≡ none
      → dis_qp_post_one_rqe c kmalloc mem wq wr ≡ none
  unfolding dis_qp_post_one_rqe
  orphan_post wq wr e = post_one_orphan c kmalloc mem wc_recv wq wr e

  orphan_post_all :
      (wq : DisWq) (wr : IbWr) (wrs : List IbWr)
      → dis_qp_post_one_rqe c kmalloc mem wq wr ≡ none
      → post_all (dis_qp_post_one_rqe c kmalloc mem) wq (wr ∷ wrs) ≡ none
  orphan_post_all wq wr wrs e = post_all_fault (dis_qp_post_one_rqe c kmalloc mem) wq wr wrs e

  -- Creating a shared receive queue in an object of zeros leaves its work queue without a queue pair:
  -- where a read through that NULL pointer is undefined behaviour, so is posting any request to it.
  pub post_srq_null :
      (r : RoundUp) (srq : DisSrq) (attr : SrqAttr) (wr : IbWr) (wrs : List IbWr)
      → srq.rq.ibqp ≡ 0
      → mem.pd_of 0 ≡ none
      → dis_post_srq_recv c kmalloc mem (dis_create_srq r srq attr true).1 (wr ∷ wrs) ≡ none
  unfolding dis_post_srq_recv dis_create_srq
  post_srq_null r srq attr wr wrs orphan null =
      ap (with_srq c kmalloc mem (dis_create_srq r srq attr true).1) (
        orphan_post_all (dis_create_srq r srq attr true).1.rq wr wrs
          (orphan_post (dis_create_srq r srq attr true).1.rq wr (ap mem.pd_of orphan ∙ null)))
