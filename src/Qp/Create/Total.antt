-- ===== src/Qp/Create/Total.antt =====
-- Destroying a queue pair returns where its workers end.
use dis_kverbs.Common.{ℕ, ◌≡◌, ◌⊎◌, inl, inr, refl, some, Returns}
use dis_kverbs.Memory.{Heap, load}
use dis_kverbs.Verbs.{
  DisWq, DisWqType, dis_sq, dis_rq, DisWqStatus, wq_uninitialized, wq_initialized, wq_running,
  wq_exited,
}
use dis_kverbs.Qp.{DisQp}
use dis_kverbs.Qp.Create.{dis_qp_exit, dis_destroy_qp}

-- The wait for the worker ends: there is none, or it shows that it left.
abbrev pub IsEnding : (DisWq → DisWq) → DisWq → Type 0
IsEnding stopped wq =
    (wq.wq_state ≡ wq_uninitialized)
    ⊎ (wq.wq_state ≡ wq_exited)
    ⊎ ((stopped wq).wq_state ≡ wq_exited)

dis_qp_exit-Returns :
    (stopped : DisWq → DisWq) (wq : DisWq) → IsEnding stopped wq → Returns (dis_qp_exit stopped wq)
unfolding dis_qp_exit
dis_qp_exit-Returns stopped wq (inl new) = rw (new, dis_qp_exit) (wq, refl)
dis_qp_exit-Returns stopped wq (inr (inl old)) = rw (old, dis_qp_exit) (wq, refl)
dis_qp_exit-Returns stopped wq (inr (inr ends)) = by_state wq.wq_state refl
  where
    by_state : (s : DisWqStatus) → wq.wq_state ≡ s → Returns (dis_qp_exit stopped wq)
    by_state wq_uninitialized e = rw (e, dis_qp_exit) (wq, refl)
    by_state wq_exited e = rw (e, dis_qp_exit) (wq, refl)
    by_state wq_initialized e = rw (e, dis_qp_exit, ends) (stopped wq, refl)
    by_state wq_running e = rw (e, dis_qp_exit, ends) (stopped wq, refl)

pub dis_destroy_qp-Returns :
    (stopped : DisWqType → DisWq → DisWq) (qps : Heap DisQp) (a : ℕ) {qp : DisQp}
    → load qps a ≡ some qp
    → IsEnding (stopped dis_rq) qp.rq
    → IsEnding (stopped dis_sq) qp.sq
    → Returns (dis_destroy_qp stopped qps a)
unfolding dis_destroy_qp
dis_destroy_qp-Returns stopped qps a {qp} live ends ends' =
    let (rq, ended) = dis_qp_exit-Returns (stopped dis_rq) qp.rq ends in
    let (sq, ended') = dis_qp_exit-Returns (stopped dis_sq) qp.sq ends' in
    rw (live, dis_destroy_qp, ended, ended') (_, refl)
