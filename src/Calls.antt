-- ===== src/Calls.antt =====
-- The verbs of driver/dis_verbs.c on the objects of one protection domain, called in any order, and the
-- runs of the workers (driver/dis_qp.c) on its queue pairs.
--
-- The core of the kernel allocates completion queues, with zeros, and frees them; the driver allocates
-- regions and queue pairs. A call of a verb on an object that is not there, or that was destroyed,
-- is `none`.
pub mod Access
pub mod Inv
pub mod Keys
pub mod Parts
pub mod Steps
pub mod Stops
pub mod Total
mod Tests
use dis_kverbs.Common.{ℕ, Bool, List, [], ◌∷◌, Option, none, some}
use mathlib.Core.Option
use dis_kverbs.Kernel.{CircBuf, RoundUp}
use dis_kverbs.Memory.{Heap, load, store, alloc, free}
use dis_kverbs.Pd.{DisPd, dis_alloc_pd}
use dis_kverbs.Verbs.{
  Ret, done, fail, Iovec, DisMr, DisCq, DisWq, DisWqType, dis_sq, dis_rq, wq_uninitialized,
  wq_exited,
}
use dis_kverbs.Mr.{MrOut, RegEnv, dis_get_dma_mr, dis_reg_user_mr, dis_dereg_mr}
use dis_kverbs.Cq.{dis_create_cq, dis_poll_cq}
use dis_kverbs.Post.{IbWr, Mem}
use dis_kverbs.Qp.{DisQp, QpAttr, dis_modify_qp, dis_post_send, dis_post_recv}
use dis_kverbs.Qp.Create.{QpInitAttr, QpEnv, dis_create_qp, dis_destroy_qp}
use dis_kverbs.SciIf.{SciReply}
use dis_kverbs.Worker.{Drained, dis_wq_consume_all}

-- The domain, and what is in memory.
pub record Objects : Type 0 where
  pub pd : DisPd
  pub mrs : Heap DisMr
  pub cqs : Heap DisCq
  pub qps : Heap DisQp

-- A call with its arguments and the answers of the kernel; objects are named by their addresses.
pub data Call : Type 0 where
  get_dma_mr : Bool → Call
  reg_user_mr : ℕ → ℕ → RegEnv → Call
  dereg_mr : ℕ → Call
  create_cq : ℕ → Bool → Call
  poll_cq : ℕ → ℕ → Call
  destroy_cq : ℕ → Call
  create_qp : QpInitAttr → QpEnv → Call
  modify_qp : ℕ → ℕ → ℕ → QpAttr → Call
  destroy_qp : ℕ → List SciReply → List SciReply → Call
  post_send : ℕ → List IbWr → Call
  post_recv : ℕ → List IbWr → Call
  work_sq : ℕ → List SciReply → Call
  work_rq : ℕ → List SciReply → Call

-- The domain that dis_alloc_pd returns, with nothing in memory.
abbrev pub new_objects : DisPd → ℕ → Objects
new_objects pd dev = record { pd = (dis_alloc_pd pd dev).1; mrs = []; cqs = []; qps = [] }

abbrev pub zero_cq : DisCq
zero_cq = record { ib_cqe = 0; buf = []; head = 0; tail = 0; cqe_max = 0 }

abbrev pub with_regions : Objects → MrOut → Objects
with_regions o out = record o { pd = out.pd; mrs = out.mrs }

-- The core keeps the object where the driver returned 0.
abbrev pub with_cq : Objects → Ret × DisCq → Objects
with_cq o (done, cq) = record o { cqs = alloc o.cqs cq }
with_cq o (fail _, cq) = o

abbrev pub with_qp : Objects → ℕ → Ret × DisQp → Objects
with_qp o a (ret, qp) = record o { qps = store o.qps a qp }

-- The queue pairs are all of this domain.
abbrev pub mem_of : Objects → Mem
mem_of o = record { pd_of = λ qp. Option.map (λ _. o.pd) (load o.qps qp); mrs = o.mrs }

abbrev pub sq_worked : Objects → ℕ → DisQp → Drained → Objects
sq_worked o a qp d = record o {
  cqs = store o.cqs qp.sq.cq d.cq;
  qps = store o.qps a (record qp { sq = d.wq });
}

abbrev pub rq_worked : Objects → ℕ → DisQp → Drained → Objects
rq_worked o a qp d = record o {
  cqs = store o.cqs qp.rq.cq d.cq;
  qps = store o.qps a (record qp { rq = d.wq });
}

-- `ibpd` is the domain's address.
module _ (c : CircBuf) (r : RoundUp) (kmalloc : ℕ → Option (ℕ × List Iovec))
    (msq_of : ℕ → DisWqType → ℕ) (ibpd : ℕ) where
  pub on_qp : Objects → ℕ → (DisQp → Option Objects) → Option Objects
  on_qp o a f = elim (load o.qps a) [ none ↦ none | some qp ↦ f qp ]

  pub on_cq : Objects → ℕ → (DisCq → Option Objects) → Option Objects
  on_cq o a f = elim (load o.cqs a) [ none ↦ none | some cq ↦ f cq ]

  -- dis_wq_thread until it is told to stop: it goes on with its entries, and reports the one at which it
  -- stands; then it shows that it left.
  pub run_out : Objects → DisWq → List SciReply → Option (Objects × DisWq)
  run_out o wq replies = elim (load o.cqs wq.cq) [
    | none ↦ none
    | some cq ↦
        Option.map
          (λ (d : Drained).
            (record o { cqs = store o.cqs wq.cq d.cq }, record (d.wq) { wq_state = wq_exited }))
          (dis_wq_consume_all c wq.wqe_max wq cq replies)
  ]

  -- The worker of a queue that is neither new nor left has run, or runs before it is told to stop: Thread
  -- has one that never runs, which is waited for without end. A queue without a worker stays as it
  -- is.
  pub stop_worker : Objects → DisWq → List SciReply → Option (Objects × DisWq)
  stop_worker o wq replies = elim wq.wq_state [
    | wq_uninitialized ↦ some (o, wq)
    | wq_exited ↦ some (o, wq)
    | _ ↦ run_out o wq replies
  ]

  -- What the two workers made of their queues.
  abbrev pub stopped_as : DisWq → DisWq → DisWqType → DisWq → DisWq
  stopped_as rq sq dis_rq wq = rq
  stopped_as rq sq dis_sq wq = sq

  pub destroyed : Objects → ℕ → DisQp → List SciReply → List SciReply → Option Objects
  destroyed o a qp rq_replies sq_replies = elim (stop_worker o qp.rq rq_replies) [
    | none ↦ none
    | some (o1, rq) ↦ elim (stop_worker o1 qp.sq sq_replies) [
      | none ↦ none
      | some (o2, sq) ↦
          Option.map (λ out. record o2 { qps = out.1 }) (dis_destroy_qp (stopped_as rq sq) o2.qps a)
    ]
  ]

  pub call : Objects → Call → Option Objects
  call o (get_dma_mr mr_alloc) = some (with_regions o (dis_get_dma_mr o.pd o.mrs mr_alloc))
  call o (reg_user_mr len va env) =
      Option.map (with_regions o) (dis_reg_user_mr o.pd o.mrs len va env)
  call o (dereg_mr a) = Option.map (λ out. record o { mrs = out.1 }) (dis_dereg_mr o.mrs a)
  call o (create_cq cqe buf_alloc) = some (with_cq o (dis_create_cq r zero_cq cqe buf_alloc))
  call o (poll_cq a n) =
      on_cq o a (λ cq. some (record o { cqs = store o.cqs a (dis_poll_cq c cq n).1 }))
  call o (destroy_cq a) = on_cq o a (λ cq. some (record o { cqs = free o.cqs a }))
  call o (create_qp attr env) =
      let out = dis_create_qp r msq_of ibpd o.pd o.qps attr env in
      some (record o { pd = out.pd; qps = out.qps })
  call o (modify_qp a rq_thread sq_thread attr) =
      on_qp o a (λ qp. some (with_qp o a (dis_modify_qp rq_thread sq_thread attr qp)))
  call o (destroy_qp a rq_replies sq_replies) =
      on_qp o a (λ qp. destroyed o a qp rq_replies sq_replies)
  call o (post_send a wrs) =
      on_qp o a (λ qp. Option.map (with_qp o a) (dis_post_send c kmalloc (mem_of o) qp wrs))
  call o (post_recv a wrs) =
      on_qp o a (λ qp. Option.map (with_qp o a) (dis_post_recv c kmalloc (mem_of o) qp wrs))
  call o (work_sq a replies) = on_qp o a (λ qp.
      on_cq o qp.sq.cq
        (λ cq. Option.map (sq_worked o a qp) (dis_wq_consume_all c qp.sq.wqe_max qp.sq cq replies)))
  call o (work_rq a replies) = on_qp o a (λ qp.
      on_cq o qp.rq.cq
        (λ cq. Option.map (rq_worked o a qp) (dis_wq_consume_all c qp.rq.wqe_max qp.rq cq replies)))

  pub calls : Objects → List Call → Option Objects
  calls o [] = some o
  calls o (x ∷ xs) = elim (call o x) [ none ↦ none | some o' ↦ calls o' xs ]
