-- ===== src/Transfer/Stale.antt =====
-- A work queue's slot that is used again: dis_qp_post_one_sqe and dis_qp_post_one_rqe with
-- dis_wq_consume_all, of driver/dis_qp.c.
use dis_kverbs.Common.{
  ℕ, suc, ◌+◌, ◌≤◌, ◌<◌, ◌≡◌, List, [], ◌∷◌, Option, some, arith, refl, ap, sym, ◌∙◌, inl, get_or,
  get_or-set_self, set, ◌==◌, false,
}
use dis_kverbs.Common.Mask.{used_self, used_after_push}
use dis_kverbs.Common.Ring.{ring_used}
use dis_kverbs.Kernel.{CircBuf}
use dis_kverbs.Circ.{circ_next-head}
use dis_kverbs.Pd.{DisPd}
use dis_kverbs.Verbs.{
  done, WcOpcode, Iovec, DisMr, DisWqe, DisCq, DisWq, DisWqType, zero_wqe, dis_sge_per_wqe,
}
use dis_kverbs.Post.{IbWr, Mem, used_sges, post_one}
use dis_kverbs.Post.Spec.{AllIn, sges_counted}
use dis_kverbs.Post.Build.{IsWq, wq_used}
use dis_kverbs.Post.Correct.{with_wqe, post_one_made}
use dis_kverbs.Post.Stale.{build_wqe-stale}
use dis_kverbs.SciIf.{SciReply}
use dis_kverbs.Worker.{Consumed, Drained, consume_one, dis_wq_consume_all}
use dis_kverbs.Worker.Complete.{consume_one-IsCompleted}
use dis_kverbs.Worker.Single.{consume_all_one}
use dis_kverbs.Worker.Tail.{IsQueue, used-step_tail}

module _ (c : CircBuf) where
  one-map :
      (type : DisWqType) (cq : DisCq) (wqe : DisWqe) (rs : List SciReply)
      → (consume_one c type cq wqe rs).wqe.page_map_dynamic ≡ wqe.page_map_dynamic
  one-map type cq wqe rs =
      let k = consume_one-IsCompleted c type cq wqe rs in
      ap (λ (o : Consumed). o.wqe.page_map_dynamic) k.posted_once ∙ k.same_map

  module _ (kmalloc : ℕ → Option (ℕ × List Iovec)) (mem : Mem) where
    -- Let a queue be in order and empty, and its next slot hold the address of an array, which the
    -- worker leaves in each slot whose array it frees. Then a request whose segments lie in live
    -- regions and need no array of their own is posted to that slot, and the worker's run over it
    -- ends, frees the address, though posting allocated nothing, and leaves it in the slot again.
    pub freed_again :
        (opcode : WcOpcode) (pd : DisPd) (wq : DisWq) (wr : IbWr) (rs : List DisMr) (a : ℕ)
        (cq : DisCq) (r : SciReply) (replies : List SciReply)
        → IsWq wq
        → wq.head ≡ wq.tail
        → 1 < wq.wqe_max
        → mem.pd_of wq.ibqp ≡ some pd
        → AllIn mem.mrs pd rs (used_sges wr)
        → sges_counted rs (used_sges wr) ≤ dis_sge_per_wqe
        → (get_or wq.buf wq.head zero_wqe).page_map_dynamic ≡ suc a
        → (wq' : DisWq) × (d : Drained) × (post_one c kmalloc mem opcode wq wr ≡ some (done, wq'))
          × (dis_wq_consume_all c wq.wqe_max wq' cq (r ∷ replies) ≡ some d)
          × (d.freed ≡ suc a ∷ [])
          × ((get_or d.wq.buf wq.head zero_wqe).page_map_dynamic ≡ suc a)
          × (wq_used d.wq ≡ 0)
    unfolding with_wqe
    freed_again opcode pd wq wr rs a cq r replies v empty size found live few stale =
        let none_used : wq_used wq ≡ 0 = rw empty (used_self wq.wqe_max wq.tail) in
        let (wqe, built, run, ordered, entry) =
          post_one_made c kmalloc mem opcode pd wq wr rs v (omega (arith, none_used)) found live
            (omega (arith, few)) (inl few) in
        let wq1 = with_wqe wq wqe in
        let one_used : ring_used wq1.wqe_max wq1.head wq1.tail ≡ 1 =
          ap (λ h. ring_used wq.wqe_max h wq.tail) (circ_next-head v.ring)
          ∙ used_after_push wq.wqe_max wq.head wq.tail v.ring.head_in v.ring.tail_in
              (omega (arith, none_used))
          ∙ ap (λ n. n + 1) none_used in
        let same : wqe.page_map_dynamic ≡ suc a =
          build_wqe-stale c kmalloc mem opcode pd wq wr built (rw (entry.elements) few) ∙ stale in
        let at_tail : get_or wq1.buf wq1.tail zero_wqe ≡ wqe =
          ap (λ i. get_or (set wq.buf wq.head wqe) i zero_wqe) (sym empty)
          ∙ get_or-set_self wq.buf wq.head wqe zero_wqe (omega (arith, v.ring)) in
        let one = consume_one c wq.wq_type cq (get_or wq1.buf wq1.tail zero_wqe) (r ∷ replies) in
        let kept : one.wqe.page_map_dynamic ≡ suc a =
          one-map wq.wq_type cq (get_or wq1.buf wq1.tail zero_wqe) (r ∷ replies)
          ∙ ap (λ (w : DisWqe). w.page_map_dynamic) at_tail
          ∙ same in
        let q : IsQueue wq1 = record { ring = ordered.ring } in
        let (ret, drained) = consume_all_one c wq.wqe_max wq1 cq r replies q one_used size in
        let not_null : (suc a == 0) ≡ false = ground arith in
        let slot : get_or (set wq1.buf wq.tail one.wqe) wq.head zero_wqe ≡ one.wqe =
          ap (λ i. get_or (set wq1.buf wq.tail one.wqe) i zero_wqe) empty
          ∙ get_or-set_self wq1.buf wq.tail one.wqe zero_wqe (omega (arith, ordered.ring)) in
        (
          wq1,
          _,
          run,
          drained,
          rw (kept, not_null) refl,
          ap (λ (w : DisWqe). w.page_map_dynamic) slot ∙ kept,
          omega (arith, used-step_tail wq1 one.wqe q (omega (arith, one_used)), one_used),
        )
