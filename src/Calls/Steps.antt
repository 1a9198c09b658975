-- ===== src/Calls/Steps.antt =====
-- Every call keeps the invariant of the objects of a domain.
use dis_kverbs.Common.{
  ℕ, ◌+◌, ◌^◌, ◌≤◌, ◌<◌, ◌≡◌, ◌≢◌, inl, inr, refl, arith, Bool, true, false, Option, some, List, [],
  ◌∷◌, length, AllSome, AllSome-elim, AllSome-intro, AllSome-map, Option-cases,
}
use dis_kverbs.Kernel.{CircBuf, RoundUp}
use dis_kverbs.Memory.{Heap, load, free}
use dis_kverbs.Memory.All.{All-empty, All-store, All-free}
use dis_kverbs.Pd.{DisPd, dis_alloc_pd}
use dis_kverbs.Verbs.{dis_mr_max, dis_qp_max, Ret, Iovec, DisMr, DisWqType}
use dis_kverbs.Events.{Event}
use dis_kverbs.Mr.{Resource, dis_get_dma_mr}
use dis_kverbs.Mr.Effect.{
  IsEffect, dis_get_dma_mr-IsEffect, dis_reg_user_mr-IsEffect, dis_dereg_mr-frees,
}
use dis_kverbs.Cq.{dis_create_cq, dis_poll_cq}
use dis_kverbs.Cq.Inv.{IsValid, dis_create_cq_lem}
use dis_kverbs.Cq.Refine.{poll_refines}
use dis_kverbs.Qp.{DisQp, dis_modify_qp}
use dis_kverbs.Qp.Keeps.{IsKeptPair, modify-IsKeptPair, send-IsKeptPair, recv-IsKeptPair}
use dis_kverbs.Qp.Create.{dis_create_qp}
use dis_kverbs.Qp.Create.Effect.{dis_create_qp-IsAdded}
use dis_kverbs.Worker.Keeps.{IsRun, consume_all-IsRun}
use dis_kverbs.Calls.{
  Objects, Call, get_dma_mr, reg_user_mr, dereg_mr, create_cq, poll_cq, destroy_cq, create_qp,
  modify_qp, destroy_qp, post_send, post_recv, work_sq, work_rq, zero_cq, with_regions, with_cq,
  with_qp, mem_of, sq_worked, rq_worked, call, calls, new_objects,
}
use dis_kverbs.Calls.Inv.{keys_apart, IsKeyed, IsPair, IsObjects}
use dis_kverbs.Calls.Access.{on_qp-AllSome, on_cq-AllSome}
use dis_kverbs.Calls.Stops.{destroyed-IsObjects}
use dis_kverbs.Calls.Parts.{
  with_cqs, with_mrs, regions-IsObjects, pair-IsObjects, created-IsObjects, kept-IsObjects,
  worked_sq, worked_rq,
}

-- The sizes that are asked for round up to a power of two of 32 bits.
abbrev pub IsSized : Call → Type 0
IsSized (create_cq cqe buf_alloc) = cqe + 1 ≤ 2 ^ 31
IsSized (create_qp attr env) = (attr.max_send_wr < 2 ^ 31) × (attr.max_recv_wr < 2 ^ 31)
IsSized _ = Unit

abbrev pub AllSized : List Call → Type 0
AllSized [] = Unit
AllSized (x ∷ xs) = IsSized x × AllSized xs

module _ (c : CircBuf) (r : RoundUp) (kmalloc : ℕ → Option (ℕ × List Iovec))
    (msq_of : ℕ → DisWqType → ℕ) (ibpd : ℕ) where
  new_cq-IsObjects :
      (o : Objects) (cqe : ℕ) (buf_alloc : Bool)
      → cqe + 1 ≤ 2 ^ 31
      → IsObjects o
      → IsObjects (with_cq o (dis_create_cq r zero_cq cqe buf_alloc))
  new_cq-IsObjects o cqe true small v =
      created-IsObjects o v (dis_create_cq r zero_cq cqe true)
        (λ e. (dis_create_cq_lem r zero_cq cqe refl refl small).1)
  new_cq-IsObjects o cqe false small v =
      created-IsObjects o v (dis_create_cq r zero_cq cqe false)
        (λ e. let failed = (dis_create_cq_lem r zero_cq cqe refl refl small).6 in cc)

  -- Where a call returns, the objects are in order again.
  pub call-IsObjects :
      (o : Objects) (x : Call)
      → IsSized x
      → IsObjects o
      → AllSome IsObjects (call c r kmalloc msq_of ibpd o x)
  unfolding call
  call-IsObjects o (get_dma_mr mr_alloc) s v =
      regions-IsObjects o v (dis_get_dma_mr o.pd o.mrs mr_alloc)
        (dis_get_dma_mr-IsEffect o.pd o.mrs mr_alloc)
  call-IsObjects o (reg_user_mr len va env) s v =
      AllSome-map (IsEffect o.pd o.mrs) IsObjects (with_regions o) _ (regions-IsObjects o v)
        (dis_reg_user_mr-IsEffect o.pd o.mrs len va env)
  call-IsObjects o (dereg_mr a) s v =
      AllSome-map (λ (out : Ret × Heap DisMr × List (Event Resource)). out.1 ≡ free o.mrs a)
        IsObjects (λ out. record o { mrs = out.1 }) _
        (λ out e. with_mrs o v out.1 (rw e (All-free (IsKeyed o.pd) o.mrs a v.regions)))
        (dis_dereg_mr-frees o.mrs a)
  call-IsObjects o (create_cq cqe buf_alloc) s v = new_cq-IsObjects o cqe buf_alloc s v
  call-IsObjects o (poll_cq a n) s v =
      on_cq-AllSome c r kmalloc msq_of ibpd IsObjects o a _ (λ cq live. with_cqs o v _ (
        All-store (λ a cq. IsValid cq) o.cqs a (dis_poll_cq c cq n).1 v.queues
          (poll_refines c n (v.queues a cq live)).2))
  call-IsObjects o (destroy_cq a) s v =
      on_cq-AllSome c r kmalloc msq_of ibpd IsObjects o a _
        (λ cq live. with_cqs o v _ (All-free (λ a cq. IsValid cq) o.cqs a v.queues))
  call-IsObjects o (create_qp attr env) s v =
      pair-IsObjects o v (dis_create_qp r msq_of ibpd o.pd o.qps attr env)
        (dis_create_qp-IsAdded r msq_of ibpd o.pd o.qps attr env s.0 s.1)
  call-IsObjects o (modify_qp a rq_thread sq_thread attr) s v =
      on_qp-AllSome c r kmalloc msq_of ibpd IsObjects o a _ (λ qp live.
        kept-IsObjects o v a qp (dis_modify_qp rq_thread sq_thread attr qp) live
          (modify-IsKeptPair rq_thread sq_thread attr qp))
  call-IsObjects o (destroy_qp a rq_replies sq_replies) s v =
      on_qp-AllSome c r kmalloc msq_of ibpd IsObjects o a _ (λ qp live.
        destroyed-IsObjects c r kmalloc msq_of ibpd o a qp rq_replies sq_replies v
          (v.pairs a qp live))
  call-IsObjects o (post_send a wrs) s v =
      on_qp-AllSome c r kmalloc msq_of ibpd IsObjects o a _ (λ qp live.
        AllSome-map (λ (out : Ret × DisQp). IsKeptPair qp out.1) IsObjects (with_qp o a) _
          (λ out k. kept-IsObjects o v a qp out live k)
          (AllSome-intro (λ (out : Ret × DisQp). IsKeptPair qp out.1) _
            (λ out e. send-IsKeptPair c kmalloc (mem_of o) qp wrs e)))
  call-IsObjects o (post_recv a wrs) s v =
      on_qp-AllSome c r kmalloc msq_of ibpd IsObjects o a _ (λ qp live.
        AllSome-map (λ (out : Ret × DisQp). IsKeptPair qp out.1) IsObjects (with_qp o a) _
          (λ out k. kept-IsObjects o v a qp out live k)
          (AllSome-intro (λ (out : Ret × DisQp). IsKeptPair qp out.1) _
            (λ out e. recv-IsKeptPair c kmalloc (mem_of o) qp wrs e)))
  call-IsObjects o (work_sq a replies) s v =
      on_qp-AllSome c r kmalloc msq_of ibpd IsObjects o a _ (λ qp live.
        on_cq-AllSome c r kmalloc msq_of ibpd IsObjects o qp.sq.cq _ (λ cq cq_live.
          AllSome-map (IsRun qp.sq.ibqp) IsObjects (sq_worked o a qp) _
            (λ d run. worked_sq o a qp d v live run)
            (consume_all-IsRun c qp.sq.wqe_max qp.sq cq replies (v.pairs a qp live).sq_ordered
              (v.queues qp.sq.cq cq cq_live))))
  call-IsObjects o (work_rq a replies) s v =
      on_qp-AllSome c r kmalloc msq_of ibpd IsObjects o a _ (λ qp live.
        on_cq-AllSome c r kmalloc msq_of ibpd IsObjects o qp.rq.cq _ (λ cq cq_live.
          AllSome-map (IsRun qp.rq.ibqp) IsObjects (rq_worked o a qp) _
            (λ d run. worked_rq o a qp d v live run)
            (consume_all-IsRun c qp.rq.wqe_max qp.rq cq replies (v.pairs a qp live).rq_ordered
              (v.queues qp.rq.cq cq cq_live))))

  all_calls :
      (o : Objects) (xs : List Call)
      → AllSized xs
      → IsObjects o
      → AllSome IsObjects (calls c r kmalloc msq_of ibpd o xs)
  unfolding calls
  all_calls o [] s v = v
  all_calls o (x ∷ xs) s v = elim (Option-cases (call c r kmalloc msq_of ibpd o x)) [
    | inl ends ↦ rw (ends, calls) tt
    | inr (o', goes) ↦
        rw (goes, calls)
          (all_calls o' xs s.1 (AllSome-elim IsObjects (call-IsObjects o x s.0 v) goes))
  ]

  pub new_objects-IsObjects :
      (pd : DisPd) (dev : ℕ)
      → length pd.mr_list ≡ dis_mr_max
      → length pd.qp_list ≡ dis_qp_max
      → IsObjects (new_objects pd dev)
  unfolding dis_alloc_pd
  new_objects-IsObjects pd dev keys numbers = record {
    keys = record { table = keys; keys = omega arith };
    numbers = numbers;
    from = omega arith;
    upto = omega arith;
    regions = All-empty (IsKeyed (dis_alloc_pd pd dev).1);
    queues = All-empty (λ a cq. IsValid cq);
    pairs = All-empty (IsPair (dis_alloc_pd pd dev).1);
  }

  -- From a new domain, with no objects and tables of the right length, any calls of the verbs in any
  -- order, with any arguments and answers, whose sizes round up to 32 bits, and any runs of the
  -- workers between them, lead where they return to objects in order: every live region is named in
  -- the domain's table under its own key, every live pair under its own number, which lies below the
  -- next one, and the indices of every live completion queue and of both queues of every live
  -- pair lie inside a buffer of a power of two of slots,
  -- each slot of a work queue with an array of four elements.
  pub calls-IsObjects :
      (pd : DisPd) (dev : ℕ) (xs : List Call) {o : Objects}
      → length pd.mr_list ≡ dis_mr_max
      → length pd.qp_list ≡ dis_qp_max
      → AllSized xs
      → calls c r kmalloc msq_of ibpd (new_objects pd dev) xs ≡ some o
      → IsObjects o
  calls-IsObjects pd dev xs keys numbers sized e =
      AllSome-elim IsObjects
        (all_calls (new_objects pd dev) xs sized (new_objects-IsObjects pd dev keys numbers)) e

  -- However the objects of a domain came about, from a new domain by any calls with sizes that round
  -- up to 32 bits, two live regions at different addresses have different keys.
  pub keys_differ :
      (pd : DisPd) (dev : ℕ) (xs : List Call) {o : Objects} (a b : ℕ) (x y : DisMr)
      → length pd.mr_list ≡ dis_mr_max
      → length pd.qp_list ≡ dis_qp_max
      → AllSized xs
      → calls c r kmalloc msq_of ibpd (new_objects pd dev) xs ≡ some o
      → load o.mrs a ≡ some x
      → load o.mrs b ≡ some y
      → a ≢ b
      → x.lkey ≢ y.lkey
  keys_differ pd dev xs a b x y keys numbers sized e live live' apart same =
      apart (keys_apart a b x y (calls-IsObjects pd dev xs keys numbers sized e) live live' same)
