-- ===== src/Worker/Single.antt =====
-- A worker's run over a queue in which one entry waits.
use dis_kverbs.Common.{
  ℕ, zero, suc, ◌<◌, ◌≡◌, List, [], ◌∷◌, some, arith, ap, ◌∙◌, false, ltb, get_or, lt→ltb,
}
use dis_kverbs.Common.Ring.{ring_used}
use mathlib.Core.Option
use dis_kverbs.Kernel.{CircBuf}
use dis_kverbs.Verbs.{Ret, done, fail, DisCq, DisWq, zero_wqe}
use dis_kverbs.SciIf.{SciReply}
use dis_kverbs.Worker.{consume_one, Drained, kfree_map, step_tail, dis_wq_consume_all}
use dis_kverbs.Worker.Tail.{IsQueue, step_tail-IsQueue, used-step_tail}
use dis_kverbs.Worker.Drain.{consume_all_empty, consume_all_more, consume_all_stopped}

module _ (c : CircBuf) where
  -- Nothing waits.
  consume_all_none :
      (fuel : ℕ) (wq : DisWq) (cq : DisCq) (rs : List SciReply)
      → IsQueue wq
      → ring_used wq.wqe_max wq.head wq.tail ≡ 0
      → (ret : Ret) × (dis_wq_consume_all c (suc fuel) wq cq rs
          ≡ some (record { ret = ret; wq = wq; cq = cq; replies = rs; freed = [] }))
  consume_all_none fuel wq cq [] v empty = (fail 42, consume_all_stopped c (suc fuel) wq cq)
  consume_all_none fuel wq cq (r ∷ rs) v empty =
      let none_wait : ltb 0 (ring_used wq.wqe_max wq.head wq.tail) ≡ false = ground arith in
      (done, consume_all_empty c fuel wq cq r rs v none_wait)

  pub consume_all_one :
      (fuel : ℕ) (wq : DisWq) (cq : DisCq) (r : SciReply) (rs : List SciReply)
      → IsQueue wq
      → ring_used wq.wqe_max wq.head wq.tail ≡ 1
      → 1 < fuel
      → let one = consume_one c wq.wq_type cq (get_or wq.buf wq.tail zero_wqe) (r ∷ rs) in
        (ret : Ret) × (dis_wq_consume_all c fuel wq cq (r ∷ rs)
          ≡ some (record {
            ret = ret;
            wq = step_tail wq one.wqe;
            cq = one.cq;
            replies = one.replies;
            freed = kfree_map one.wqe [];
          }))
  consume_all_one zero wq cq r rs v single enough = absurd (omega (arith, enough))
  consume_all_one (suc zero) wq cq r rs v single enough = absurd (omega (arith, enough))
  consume_all_one (suc (suc fuel)) wq cq r rs v single enough =
      let one = consume_one c wq.wq_type cq (get_or wq.buf wq.tail zero_wqe) (r ∷ rs) in
      let wq' = step_tail wq one.wqe in
      let some_wait : 0 < ring_used wq.wqe_max wq.head wq.tail = omega (arith, single) in
      let left = used-step_tail wq one.wqe v some_wait in
      let (ret, run) =
        consume_all_none fuel wq' one.cq one.replies (step_tail-IsQueue wq one.wqe v)
          (omega (arith, left, single)) in
      (
        ret,
        consume_all_more c (suc fuel) wq cq r rs v
              (lt→ltb 0 (ring_used wq.wqe_max wq.head wq.tail) some_wait)
            ∙ ap (Option.map (λ (e : Drained). record e { freed = kfree_map one.wqe e.freed })) run,
      )
