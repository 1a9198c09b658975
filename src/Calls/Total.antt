-- ===== src/Calls/Total.antt =====
-- Calls on live objects return.
mod Tests
use dis_kverbs.Common.{
  ℕ, ◌<◌, ◌≡◌, refl, arith, ap, ◌∙◌, Bool, Option, none, some, List, [], ◌∷◌, AllSome, AllSome-elim,
  Returns, Returns-map,
}
use mathlib.Core.Option
use dis_kverbs.Kernel.{CircBuf, RoundUp}
use dis_kverbs.Memory.{Heap, load, store, free}
use dis_kverbs.Pd.{dis_alloc_pd}
use dis_kverbs.Verbs.{Ret, Iovec, DisMr, DisCq, DisWq, DisWqType}
use dis_kverbs.Mr.{RegEnv, dis_dereg_mr, dis_reg_user_mr}
use dis_kverbs.Mr.Total.{IsPinned, dis_reg_user_mr-Returns}
use dis_kverbs.Cq.{dis_poll_cq}
use dis_kverbs.Post.Build.{IsWq}
use dis_kverbs.Post.Total.{IsAllocator}
use dis_kverbs.Qp.{DisQp, dis_modify_qp, dis_post_send, dis_post_recv}
use dis_kverbs.Qp.Create.{dis_destroy_qp}
use dis_kverbs.Qp.Create.Total.{IsEnding, dis_destroy_qp-Returns}
use dis_kverbs.Qp.Total.{AllRead, send-Returns, recv-Returns}
use dis_kverbs.SciIf.{SciReply}
use dis_kverbs.Worker.{dis_wq_consume_all}
use dis_kverbs.Worker.Drain.{consume_all-drain}
use dis_kverbs.Calls.{
  Objects, Call, get_dma_mr, reg_user_mr, dereg_mr, create_cq, poll_cq, destroy_cq, create_qp,
  modify_qp, destroy_qp, post_send, post_recv, work_sq, work_rq, with_regions, with_qp, mem_of,
  sq_worked, rq_worked, on_qp, on_cq, call, calls,
}
use dis_kverbs.Circ.{ring_used-lt}
use dis_kverbs.Calls.Inv.{IsObjects}
use dis_kverbs.Calls.Stops.{consume_all-Returns, destroyed-Returns}
use dis_kverbs.Calls.Steps.{IsSized, AllSized, call-IsObjects}

-- The objects that a call names are live; a posted segment's key names nothing, a live region for
-- DMA, or a live region that it lies in; and no more pages are pinned than are counted.
abbrev pub IsFit : Objects → Call → Type 0
IsFit o (get_dma_mr mr_alloc) = Unit
IsFit o (reg_user_mr len va env) = IsPinned env.umem_get
IsFit o (dereg_mr a) = Returns (load o.mrs a)
IsFit o (create_cq cqe buf_alloc) = Unit
IsFit o (poll_cq a n) = Returns (load o.cqs a)
IsFit o (destroy_cq a) = Returns (load o.cqs a)
IsFit o (create_qp attr env) = Unit
IsFit o (modify_qp a rq_thread sq_thread attr) = Returns (load o.qps a)
IsFit o (destroy_qp a rq_replies sq_replies) =
    (qp : DisQp) × (load o.qps a ≡ some qp)
    × Returns (load o.cqs qp.rq.cq)
    × Returns (load o.cqs qp.sq.cq)
IsFit o (post_send a wrs) = Returns (load o.qps a) × AllRead o.mrs o.pd wrs
IsFit o (post_recv a wrs) = Returns (load o.qps a) × AllRead o.mrs o.pd wrs
IsFit o (work_sq a replies) =
    (qp : DisQp) × (load o.qps a ≡ some qp) × Returns (load o.cqs qp.sq.cq)
IsFit o (work_rq a replies) =
    (qp : DisQp) × (load o.qps a ≡ some qp) × Returns (load o.cqs qp.rq.cq)

dereg-Returns : (mrs : Heap DisMr) (a : ℕ) → Returns (load mrs a) → Returns (dis_dereg_mr mrs a)
unfolding dis_dereg_mr
dereg-Returns mrs a (mr, live) = rw (live, dis_dereg_mr) (_, refl)

module _ (c : CircBuf) (r : RoundUp) (kmalloc : ℕ → Option (ℕ × List Iovec))
    (msq_of : ℕ → DisWqType → ℕ) (ibpd : ℕ) where
  on_qp-Returns :
      (o : Objects) (a : ℕ) (f : DisQp → Option Objects) {qp : DisQp}
      → load o.qps a ≡ some qp
      → Returns (f qp)
      → Returns (on_qp c r kmalloc msq_of ibpd o a f)
  unfolding on_qp
  on_qp-Returns o a f live (o', e) = rw (live, on_qp) (o', e)

  on_cq-Returns :
      (o : Objects) (a : ℕ) (f : DisCq → Option Objects) {cq : DisCq}
      → load o.cqs a ≡ some cq
      → Returns (f cq)
      → Returns (on_cq c r kmalloc msq_of ibpd o a f)
  unfolding on_cq
  on_cq-Returns o a f live (o', e) = rw (live, on_cq) (o', e)

  -- A pair finds its domain through the address that its queues hold.
  domain_of :
      (o : Objects) (a owner : ℕ) {qp : DisQp}
      → owner ≡ a
      → load o.qps a ≡ some qp
      → (mem_of o).pd_of owner ≡ some o.pd
  domain_of o a owner same live = rw same (rw live refl)

  -- Every call of the list is fit for the objects that the calls before it leave.
  abbrev pub AllFit : Objects → List Call → Type 0
  AllFit o [] = Unit
  AllFit o (x ∷ xs) = IsFit o x × AllSome (λ o'. AllFit o' xs) (call c r kmalloc msq_of ibpd o x)

  module _ (allocates : IsAllocator kmalloc) where
    call-Returns :
        (o : Objects) (x : Call)
        → IsObjects o
        → IsFit o x
        → Returns (call c r kmalloc msq_of ibpd o x)
    unfolding call
    call-Returns o (get_dma_mr mr_alloc) v fit = (_, refl)
    call-Returns o (reg_user_mr len va env) v fit =
        Returns-map (with_regions o) _ (dis_reg_user_mr-Returns o.pd o.mrs len va env fit)
    call-Returns o (dereg_mr a) v fit = Returns-map _ _ (dereg-Returns o.mrs a fit)
    call-Returns o (create_cq cqe buf_alloc) v fit = (_, refl)
    call-Returns o (poll_cq a n) v (cq, live) = on_cq-Returns o a _ live (_, refl)
    call-Returns o (destroy_cq a) v (cq, live) = on_cq-Returns o a _ live (_, refl)
    call-Returns o (create_qp attr env) v fit = (_, refl)
    call-Returns o (modify_qp a rq_thread sq_thread attr) v (qp, live) =
        on_qp-Returns o a _ live (_, refl)
    call-Returns o (destroy_qp a rq_replies sq_replies) v (qp, live, rq_cq, sq_cq) =
        on_qp-Returns o a _ live (
          destroyed-Returns c r kmalloc msq_of ibpd o a qp rq_replies sq_replies v live rq_cq sq_cq)
    call-Returns o (post_send a wrs) v ((qp, live), known) =
        let p = v.pairs a qp live in
        on_qp-Returns o a _ live (
          Returns-map (with_qp o a) _ (
            send-Returns c kmalloc (mem_of o) o.pd allocates qp wrs p.sq_ordered
              (domain_of o a qp.sq.ibqp p.sq_owner live) known))
    call-Returns o (post_recv a wrs) v ((qp, live), known) =
        let p = v.pairs a qp live in
        on_qp-Returns o a _ live (
          Returns-map (with_qp o a) _ (
            recv-Returns c kmalloc (mem_of o) o.pd allocates qp wrs p.rq_ordered
              (domain_of o a qp.rq.ibqp p.rq_owner live) known))
    call-Returns o (work_sq a replies) v (qp, live, (cq, live_cq)) = on_qp-Returns o a _ live (
        on_cq-Returns o qp.sq.cq _ live_cq (
          Returns-map (sq_worked o a qp) _
            (consume_all-Returns c qp.sq cq replies (v.pairs a qp live).sq_ordered)))
    call-Returns o (work_rq a replies) v (qp, live, (cq, live_cq)) = on_qp-Returns o a _ live (
        on_cq-Returns o qp.rq.cq _ live_cq (
          Returns-map (rq_worked o a qp) _
            (consume_all-Returns c qp.rq cq replies (v.pairs a qp live).rq_ordered)))

    calls_step :
        (o : Objects) (x : Call) (xs : List Call) {o' : Objects}
        → call c r kmalloc msq_of ibpd o x ≡ some o'
        → calls c r kmalloc msq_of ibpd o (x ∷ xs) ≡ calls c r kmalloc msq_of ibpd o' xs
    unfolding calls
    calls_step o x xs run = rw (run, calls) refl

    pub all_return :
        (o : Objects) (xs : List Call)
        → IsObjects o
        → AllSized xs
        → AllFit o xs
        → (o' : Objects) × (calls c r kmalloc msq_of ibpd o xs ≡ some o') × IsObjects o'
    unfolding calls
    all_return o [] v sized fit = (o, refl, v)
    all_return o (x ∷ xs) v (small, sized) (fit, others) =
        let (o', run) = call-Returns o x v fit in
        let v' = AllSome-elim IsObjects (call-IsObjects c r kmalloc msq_of ibpd o x small v) run in
        let (o2, runs, v2) =
          all_return o' xs v' sized (AllSome-elim (λ t. AllFit t xs) others run) in
        (o2, calls_step o x xs run ∙ runs, v2)
