-- ===== src/Cq/Trace.antt =====
-- Any sequence of calls on a completion queue, against the same calls on a bounded FIFO.
use dis_kverbs.Common.{ℕ, ◌-◌, ◌≡◌, List, [], ◌∷◌, map, refl, ap, ap₂, ◌∙◌}
use dis_kverbs.Kernel.{CircBuf}
use dis_kverbs.Verbs.{Ret, WcStatus, DisWqe, DisCqe, DisCq}
use dis_kverbs.Cq.{IbWc, cqe_of, wc_of, dis_wq_post_sqe_cqe, dis_wq_post_rqe_cqe, dis_poll_cq}
use dis_kverbs.Cq.Inv.{IsValid, contents}
use dis_kverbs.Cq.Refine.{post_rqe-eq-post_sqe, post_refines, poll_refines}
use dis_kverbs.Cq.Queue

-- What the workers and the consumer do with a queue, in the order in which they do it.
pub data CqOp : Type 0 where
  sqe_cqe : DisWqe → WcStatus → CqOp
  rqe_cqe : DisWqe → WcStatus → CqOp
  poll : ℕ → CqOp

-- What they see.
pub data CqReply : Type 0 where
  posted : Ret → CqReply
  completions : List IbWc → CqReply

pub run_cq : CircBuf → DisCq → List CqOp → List CqReply
run_cq c cq [] = []
run_cq c cq (sqe_cqe wqe s ∷ ops) =
    let (ret, cq') = dis_wq_post_sqe_cqe c cq wqe s in posted ret ∷ run_cq c cq' ops
run_cq c cq (rqe_cqe wqe s ∷ ops) =
    let (ret, cq') = dis_wq_post_rqe_cqe c cq wqe s in posted ret ∷ run_cq c cq' ops
run_cq c cq (poll n ∷ ops) =
    let (wcs, cq') = dis_poll_cq c cq n in completions wcs ∷ run_cq c cq' ops

pub run_queue : ℕ → List DisCqe → List CqOp → List CqReply
run_queue cap q [] = []
run_queue cap q (sqe_cqe wqe s ∷ ops) =
    let (ret, q') = Queue.push cap q (cqe_of wqe s) in posted ret ∷ run_queue cap q' ops
run_queue cap q (rqe_cqe wqe s ∷ ops) =
    let (ret, q') = Queue.push cap q (cqe_of wqe s) in posted ret ∷ run_queue cap q' ops
run_queue cap q (poll n ∷ ops) =
    let (taken, left) = Queue.pop n q in completions (map wc_of taken) ∷ run_queue cap left ops

step_refines :
    (c : CircBuf) (wqe : DisWqe) (s : WcStatus) (ops : List CqOp) {cq : DisCq}
    → IsValid cq
    → ((q : DisCq) → IsValid q → run_cq c q ops ≡ run_queue (q.cqe_max - 1) (contents q) ops)
    → run_cq c cq (sqe_cqe wqe s ∷ ops)
      ≡ run_queue (cq.cqe_max - 1) (contents cq) (sqe_cqe wqe s ∷ ops)
unfolding run_cq run_queue
step_refines c wqe s ops {cq} v rest =
    let (ret, cq') = dis_wq_post_sqe_cqe c cq wqe s in
    let (same, v', size) = post_refines c wqe s v in
    ap (λ l. posted ret ∷ l)
      (rest cq' v' ∙ ap (λ (k : ℕ). run_queue (k - 1) (contents cq') ops) size)
    ∙ ap (λ (p : Ret × List DisCqe). posted p.0 ∷ run_queue (cq.cqe_max - 1) p.1 ops) same

-- No sequence of postings by send and receive workers and of polls tells a valid completion queue
-- from a FIFO of `cqe_max - 1` entries: every completion that was accepted is polled once, in the
-- order of the postings, and a posting is refused exactly when `cqe_max - 1` entries wait.
pub run_refines :
    (c : CircBuf) (ops : List CqOp) {cq : DisCq}
    → IsValid cq
    → run_cq c cq ops ≡ run_queue (cq.cqe_max - 1) (contents cq) ops
unfolding run_cq run_queue
run_refines c [] v = refl
run_refines c (sqe_cqe wqe s ∷ ops) v = step_refines c wqe s ops v (λ q w. run_refines c ops w)
run_refines c (rqe_cqe wqe s ∷ ops) {cq} v =
    rw (post_rqe-eq-post_sqe c cq wqe s) (step_refines c wqe s ops v (λ q w. run_refines c ops w))
run_refines c (poll n ∷ ops) {cq} v =
    let (wcs, cq') = dis_poll_cq c cq n in
    let (same, left, v', size) = poll_refines c n v in
    ap₂ (λ ws rest. completions ws ∷ rest) same
      (run_refines c ops v' ∙ ap₂ (λ (k : ℕ) (q : List DisCqe). run_queue (k - 1) q ops) size left)
