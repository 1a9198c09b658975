-- ===== src/Worker.antt =====
-- The worker of a work queue in driver/dis_qp.c: dis_wq_consume_one_rqe, dis_wq_consume_one_sqe and
-- dis_wq_consume_all.
--
-- A worker runs until kthread_should_stop holds, which then stays so. What the message library
-- answers up to that moment is a list of replies, one for each attempt: no reply is left when the
-- thread is told to stop. The delay between attempts has no effect on the state.
pub mod Tail
pub mod Receive
pub mod Success
pub mod Whole
pub mod Drain
pub mod Single
pub mod Complete
pub mod Order
pub mod Keeps
mod Tests
use dis_kverbs.Common.{
  ℕ, zero, suc, ◌+◌, ◌-◌, ◌%◌, ◌^◌, List, [], ◌∷◌, Option, none, some, Bool, true, false, ltb, ◌==◌,
  if◌then◌else◌, get_or, set,
}
use mathlib.Core.Option
use dis_kverbs.Kernel.{CircBuf}
use dis_kverbs.Verbs.{
  Ret, done, fail, WcStatus, wc_success, wc_resp_timeout_err, DisWqe, DisCq, DisWq, DisWqType,
  dis_sq, dis_rq, zero_wqe, u32, circ_next,
}
use dis_kverbs.Cq.{dis_wq_post_sqe_cqe, dis_wq_post_rqe_cqe}
use dis_kverbs.SciIf.{SciReply, dis_sci_if_send_v_msg, dis_sci_if_receive_v_msg}

-- What one entry's consumption leaves: the status, the completion queue, the entry, and the replies
-- to come.
pub record Consumed : Type 0 where
  pub wc_status : WcStatus
  pub cq : DisCq
  pub wqe : DisWqe
  pub replies : List SciReply

-- `a - b` of two 32-bit variables.
abbrev pub sub32 : ℕ → ℕ → ℕ
sub32 a b = u32 (a + 2 ^ 32 - u32 b)

module _ (c : CircBuf) where
  -- A completion with the given status, which the verb's result is not asked of.
  abbrev pub complete_rqe : DisCq → DisWqe → WcStatus → List SciReply → Consumed
  complete_rqe cq wqe wq_status replies = record {
    wc_status = wq_status;
    cq = (dis_wq_post_rqe_cqe c cq wqe wq_status).1;
    wqe = wqe;
    replies = replies;
  }

  abbrev pub complete_sqe : DisCq → DisWqe → WcStatus → List SciReply → Consumed
  complete_sqe cq wqe wq_status replies = record {
    wc_status = wq_status;
    cq = (dis_wq_post_sqe_cqe c cq wqe wq_status).1;
    wqe = wqe;
    replies = replies;
  }

  -- The loop with `bytes_total` and `bytes_left`.
  pub receive_all : ℕ → ℕ → DisCq → DisWqe → List SciReply → Consumed
  receive_all bytes_total bytes_left cq wqe [] = complete_rqe cq wqe wc_resp_timeout_err []
  receive_all bytes_total bytes_left cq wqe (r ∷ rs) =
      let (ret, wqe') = dis_sci_if_receive_v_msg r wqe in
      let left = sub32 bytes_left wqe'.byte_len in
      let partial = receive_all bytes_total left cq (record wqe' { byte_len = left }) rs in
      let failed =
        receive_all bytes_total bytes_left cq (record wqe' { byte_len = bytes_left }) rs in
      elim ret [
        | done ↦
            if left == 0
            then complete_rqe cq (record wqe' { byte_len = bytes_total }) wc_success rs
            else partial
        | fail _ ↦ failed
      ]

  pub dis_wq_consume_one_rqe : DisCq → DisWqe → List SciReply → Consumed
  dis_wq_consume_one_rqe cq wqe replies = receive_all wqe.byte_len wqe.byte_len cq wqe replies

  pub dis_wq_consume_one_sqe : DisCq → DisWqe → List SciReply → Consumed
  dis_wq_consume_one_sqe cq wqe [] = complete_sqe cq wqe wc_resp_timeout_err []
  dis_wq_consume_one_sqe cq wqe (r ∷ rs) =
      let failed = dis_wq_consume_one_sqe cq wqe rs in
      elim (dis_sci_if_send_v_msg r wqe) [
        | done ↦ complete_sqe cq wqe wc_success rs
        | fail _ ↦ failed
      ]

  pub consume_one : DisWqType → DisCq → DisWqe → List SciReply → Consumed
  consume_one dis_rq cq wqe replies = dis_wq_consume_one_rqe cq wqe replies
  consume_one dis_sq cq wqe replies = dis_wq_consume_one_sqe cq wqe replies

-- A worker's queue, the completion queue, the replies to come, and the addresses given to kfree, in
-- order.
pub record Drained : Type 0 where
  pub ret : Ret
  pub wq : DisWq
  pub cq : DisCq
  pub replies : List SciReply
  pub freed : List ℕ

-- `if (wqe->page_map_dynamic) kfree(wqe->page_map_dynamic);`
abbrev pub kfree_map : DisWqe → List ℕ → List ℕ
kfree_map wqe freed = if wqe.page_map_dynamic == 0 then freed else wqe.page_map_dynamic ∷ freed

-- The entry at the tail is consumed in place, and the tail goes on.
abbrev pub step_tail : DisWq → DisWqe → DisWq
step_tail wq wqe = record wq { buf = set wq.buf wq.tail wqe; tail = circ_next wq.tail wq.wqe_max }

module _ (c : CircBuf) where
  -- One round for each entry, so the fuel `wqe_max` is enough; `none` is a lack of fuel.
  unfoldable pub dis_wq_consume_all : ℕ → DisWq → DisCq → List SciReply → Option Drained
  dis_wq_consume_all fuel wq cq [] =
      some (record { ret = fail 42; wq = wq; cq = cq; replies = []; freed = [] })
  dis_wq_consume_all zero wq cq (r ∷ rs) = none
  dis_wq_consume_all (suc fuel) wq cq (r ∷ rs) =
      let one = consume_one c wq.wq_type cq (get_or wq.buf wq.tail zero_wqe) (r ∷ rs) in
      let rest = dis_wq_consume_all fuel (step_tail wq one.wqe) one.cq one.replies in
      if ltb (c.circ_cnt wq.head wq.tail wq.wqe_max) 1
      then some (record { ret = done; wq = wq; cq = cq; replies = r ∷ rs; freed = [] })
      else Option.map (λ (d : Drained). record d { freed = kfree_map one.wqe d.freed }) rest
