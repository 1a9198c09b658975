-- ===== src/Worker/Success.antt =====
-- An entry whose transfer succeeds at the first attempt.
use dis_kverbs.Common.{◌≡◌, List, ◌∷◌, arith, refl, ap, ◌∙◌}
use dis_kverbs.Kernel.{CircBuf}
use dis_kverbs.Verbs.{Ret, DisWqe, DisCq, DisWqType, dis_sq, dis_rq, wc_success}
use dis_kverbs.Cq.Refine.{post_rqe-eq-post_sqe}
use dis_kverbs.SciIf.{SciReply, answer, sci_ok}
use dis_kverbs.Worker.{
  complete_rqe, complete_sqe, receive_all, dis_wq_consume_one_rqe, dis_wq_consume_one_sqe,
  consume_one, sub32,
}

module _ (c : CircBuf) where
  receive_whole :
      (cq : DisCq) (wqe : DisWqe) (rs : List SciReply)
      → dis_wq_consume_one_rqe c cq wqe (answer sci_ok wqe.byte_len ∷ rs)
        ≡ complete_rqe c cq wqe wc_success rs
  unfolding dis_wq_consume_one_rqe receive_all
  receive_whole cq wqe rs =
      let whole : sub32 wqe.byte_len wqe.byte_len ≡ 0 = omega arith in rw whole

  complete_rqe-eq-complete_sqe :
      (cq : DisCq) (wqe : DisWqe) (rs : List SciReply)
      → complete_rqe c cq wqe wc_success rs ≡ complete_sqe c cq wqe wc_success rs
  complete_rqe-eq-complete_sqe cq wqe rs =
      ap (λ (p : Ret × DisCq). record { wc_status = wc_success; cq = p.1; wqe = wqe; replies = rs })
        (post_rqe-eq-post_sqe c cq wqe wc_success)

  -- An attempt that sends the entry, or receives all of its bytes, completes it with success.
  pub consume_one_success :
      (type : DisWqType) (cq : DisCq) (wqe : DisWqe) (rs : List SciReply)
      → consume_one c type cq wqe (answer sci_ok wqe.byte_len ∷ rs)
        ≡ complete_sqe c cq wqe wc_success rs
  unfolding consume_one dis_wq_consume_one_sqe
  consume_one_success dis_rq cq wqe rs =
      receive_whole cq wqe rs ∙ complete_rqe-eq-complete_sqe cq wqe rs
  consume_one_success dis_sq cq wqe rs = refl
