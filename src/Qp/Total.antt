-- ===== src/Qp/Total.antt =====
-- Posting a list of requests returns.
use dis_kverbs.Common.{ℕ, ◌≡◌, refl, Option, some, List, [], ◌∷◌, Returns}
use dis_kverbs.Kernel.{CircBuf}
use dis_kverbs.Memory.{Heap}
use dis_kverbs.Pd.{DisPd}
use dis_kverbs.Verbs.{Ret, done, fail, Iovec, WcOpcode, wc_send, wc_recv, DisMr, DisWq}
use dis_kverbs.Post.{IbWr, Mem, used_sges, post_one, dis_qp_post_one_sqe, dis_qp_post_one_rqe}
use dis_kverbs.Post.Build.{IsWq}
use dis_kverbs.Post.Total.{AllKnown, IsAllocator, post_one-Returns}
use dis_kverbs.Qp.{DisQp, dis_qp_notify, post_all, dis_post_send, dis_post_recv}
use dis_kverbs.Qp.Keeps.{posted-IsKept, notify-IsKept}

-- Every segment of every request that is read is known.
abbrev pub AllRead : Heap DisMr → DisPd → List IbWr → Type 0
AllRead mrs pd [] = Unit
AllRead mrs pd (wr ∷ wrs) = AllKnown mrs pd (used_sges wr) × AllRead mrs pd wrs

module _ (c : CircBuf) (kmalloc : ℕ → Option (ℕ × List Iovec)) (mem : Mem) (pd : DisPd)
    (allocates : IsAllocator kmalloc) where
  post_all-Returns :
      (opcode : WcOpcode) (wrs : List IbWr) (wq : DisWq)
      → IsWq wq
      → mem.pd_of wq.ibqp ≡ some pd
      → AllRead mem.mrs pd wrs
      → Returns (post_all (post_one c kmalloc mem opcode) wq wrs)
  unfolding post_all
  post_all-Returns opcode [] wq v found known = ((done, wq), refl)
  post_all-Returns opcode (wr ∷ wrs) wq v found (known, others) =
      let ((ret, wq'), run) =
        post_one-Returns c kmalloc mem opcode pd wq wr allocates v found known in
      after (λ w. post_all-Returns opcode wrs w) ret wq' run
    where
      after :
          ((w : DisWq)
            → IsWq w
            → mem.pd_of w.ibqp ≡ some pd
            → AllRead mem.mrs pd wrs
            → Returns (post_all (post_one c kmalloc mem opcode) w wrs))
          → (ret : Ret) (wq' : DisWq) → post_one c kmalloc mem opcode wq wr ≡ some (ret, wq')
          → Returns (post_all (post_one c kmalloc mem opcode) wq (wr ∷ wrs))
      after rest (fail n) wq' run = rw (run, post_all) ((fail 42, wq'), refl)
      after rest done wq' run =
          let k = posted-IsKept c kmalloc mem opcode wq wr done wq' run in
          let l = notify-IsKept wq' in
          rw (run, post_all)
            (rest (dis_qp_notify wq').1 (l.ordered (k.ordered v))
              (rw (l.same_owner, k.same_owner) found) others)

  pub send-Returns :
      (qp : DisQp) (wrs : List IbWr)
      → IsWq qp.sq
      → mem.pd_of qp.sq.ibqp ≡ some pd
      → AllRead mem.mrs pd wrs
      → Returns (dis_post_send c kmalloc mem qp wrs)
  unfolding dis_post_send dis_qp_post_one_sqe
  send-Returns qp wrs v found known =
      let (out, run) = post_all-Returns wc_send wrs qp.sq v found known in rw run (_, refl)

  pub recv-Returns :
      (qp : DisQp) (wrs : List IbWr)
      → IsWq qp.rq
      → mem.pd_of qp.rq.ibqp ≡ some pd
      → AllRead mem.mrs pd wrs
      → Returns (dis_post_recv c kmalloc mem qp wrs)
  unfolding dis_post_recv dis_qp_post_one_rqe
  recv-Returns qp wrs v found known =
      let (out, run) = post_all-Returns wc_recv wrs qp.rq v found known in rw run (_, refl)
