-- ===== src/Calls/Stops.antt =====
-- The last runs of a pair's workers, before the pair is freed.
use dis_kverbs.Common.{
  ℕ, ◌≡◌, ◌⊎◌, inl, inr, refl, ap, ◌∙◌, Option, none, some, List, Option-cases, AllSome,
  AllSome-elim, AllSome-map, AllSome-weaken, Returns, Returns-map,
}
use mathlib.Core.Option
use dis_kverbs.Kernel.{CircBuf, RoundUp}
use dis_kverbs.Events.{Event}
use dis_kverbs.Memory.{Heap, load, free, store}
use dis_kverbs.Memory.All.{All-store, All-free, store_live}
use dis_kverbs.Verbs.{
  Ret, Iovec, DisCq, DisWq, DisWqType, DisWqStatus, wq_uninitialized, wq_initialized, wq_running,
  wq_exited,
}
use dis_kverbs.Cq.Inv.{IsValid}
use dis_kverbs.Post.Build.{IsWq}
use dis_kverbs.Circ.{ring_used-lt}
use dis_kverbs.Qp.{DisQp}
use dis_kverbs.Qp.Create.{QpResource}
use dis_kverbs.Qp.Create.Effect.{dis_destroy_qp-frees}
use dis_kverbs.Qp.Create.Total.{IsEnding, dis_destroy_qp-Returns}
use dis_kverbs.SciIf.{SciReply}
use dis_kverbs.Worker.{Drained, dis_wq_consume_all}
use dis_kverbs.Worker.Drain.{consume_all-drain}
use dis_kverbs.Worker.Keeps.{IsRun, consume_all-IsRun}
use dis_kverbs.Calls.{Objects, run_out, stop_worker, stopped_as, destroyed}
use dis_kverbs.Calls.Inv.{IsPair, IsObjects}
use dis_kverbs.Calls.Parts.{with_cqs, with_qps}

-- A run over a queue in order ends.
pub consume_all-Returns :
    (c : CircBuf) (wq : DisWq) (cq : DisCq) (replies : List SciReply)
    → IsWq wq
    → Returns (dis_wq_consume_all c wq.wqe_max wq cq replies)
consume_all-Returns c wq cq replies v =
    let (d, run, _, _) =
      consume_all-drain c wq.wqe_max wq cq replies (record { ring = v.ring })
        (ring_used-lt v.ring) in
    (d, run)

-- Only completions change.
pub record IsCompleting (o o' : Objects) : Type 0 where
  pub same_pd : o'.pd ≡ o.pd
  pub same_mrs : o'.mrs ≡ o.mrs
  pub same_qps : o'.qps ≡ o.qps
  pub cqs_live : (b : ℕ) → Returns (load o.cqs b) → Returns (load o'.cqs b)

IsCompleting-refl : (o : Objects) → IsCompleting o o
IsCompleting-refl o = record {
  same_pd = refl;
  same_mrs = refl;
  same_qps = refl;
  cqs_live = λ b live. live;
}

every_map :
    {A : Type 0} {B : Type 0} (P : B → Type 0) (f : A → B) (r : Option A)
    → ((x : A) → P (f x))
    → AllSome P (Option.map f r)
every_map P f none all = tt
every_map P f (some x) all = all x

module _ (c : CircBuf) (r : RoundUp) (kmalloc : ℕ → Option (ℕ × List Iovec))
    (msq_of : ℕ → DisWqType → ℕ) (ibpd : ℕ) where
  -- There is no worker, or it runs until it is told to stop.
  stop_cases :
      (o : Objects) (wq : DisWq) (replies : List SciReply)
      → (((wq.wq_state ≡ wq_uninitialized) ⊎ (wq.wq_state ≡ wq_exited))
          × (stop_worker c r kmalloc msq_of ibpd o wq replies ≡ some (o, wq)))
        ⊎ (stop_worker c r kmalloc msq_of ibpd o wq replies
            ≡ run_out c r kmalloc msq_of ibpd o wq replies)
  unfolding stop_worker
  stop_cases o wq replies = by_state wq.wq_state refl
    where
      by_state :
          (s : DisWqStatus)
          → wq.wq_state ≡ s
          → (((wq.wq_state ≡ wq_uninitialized) ⊎ (wq.wq_state ≡ wq_exited))
              × (stop_worker c r kmalloc msq_of ibpd o wq replies ≡ some (o, wq)))
            ⊎ (stop_worker c r kmalloc msq_of ibpd o wq replies
                ≡ run_out c r kmalloc msq_of ibpd o wq replies)
      by_state wq_uninitialized e = inl (inl e, simp (e, stop_worker))
      by_state wq_exited e = inl (inr e, simp (e, stop_worker))
      by_state wq_initialized e = inr (simp (e, stop_worker))
      by_state wq_running e = inr (simp (e, stop_worker))

  run_out-kept :
      (o : Objects) (wq : DisWq) (replies : List SciReply)
      → IsObjects o
      → IsWq wq
      → AllSome
          (λ (out : Objects × DisWq).
            IsObjects out.0 × IsCompleting o out.0 × (out.1.wq_state ≡ wq_exited))
          (run_out c r kmalloc msq_of ibpd o wq replies)
  unfolding run_out
  run_out-kept o wq replies v w = elim (Option-cases (load o.cqs wq.cq)) [
    | inl absent ↦ rw (absent, run_out) tt
    | inr (cq, live) ↦
        rw (live, run_out)
          (AllSome-map (IsRun wq.ibqp)
            (λ (out : Objects × DisWq).
              IsObjects out.0 × IsCompleting o out.0 × (out.1.wq_state ≡ wq_exited))
            (λ (d : Drained).
              (record o { cqs = store o.cqs wq.cq d.cq }, record (d.wq) { wq_state = wq_exited }))
            (dis_wq_consume_all c wq.wqe_max wq cq replies)
            (λ d run. (
              with_cqs o v _ (All-store (λ a q. IsValid q) o.cqs wq.cq d.cq v.queues run.valid),
              record {
                same_pd = refl;
                same_mrs = refl;
                same_qps = refl;
                cqs_live = store_live o.cqs wq.cq d.cq;
              },
              refl,
            ))
            (consume_all-IsRun c wq.wqe_max wq cq replies w (v.queues wq.cq cq live)))
  ]

  -- What stopping a worker leaves, where it returns.
  pub stop_worker-kept :
      (o : Objects) (wq : DisWq) (replies : List SciReply)
      → IsObjects o
      → IsWq wq
      → AllSome
          (λ (out : Objects × DisWq).
            IsObjects out.0 × IsCompleting o out.0 × IsEnding (λ _. out.1) wq)
          (stop_worker c r kmalloc msq_of ibpd o wq replies)
  stop_worker-kept o wq replies v w = elim (stop_cases o wq replies) [
    | inl (inl new, same) ↦ rw same (v, IsCompleting-refl o, inl new)
    | inl (inr old, same) ↦ rw same (v, IsCompleting-refl o, inr (inl old))
    | inr runs ↦ rw runs (
        AllSome-weaken
          (λ (out : Objects × DisWq).
            IsObjects out.0 × IsCompleting o out.0 × (out.1.wq_state ≡ wq_exited))
          (λ (out : Objects × DisWq).
            IsObjects out.0 × IsCompleting o out.0 × IsEnding (λ _. out.1) wq)
          (run_out c r kmalloc msq_of ibpd o wq replies) (λ out (a, b, e). (a, b, inr (inr e)))
          (run_out-kept o wq replies v w))
  ]

  stop_worker-Returns :
      (o : Objects) (wq : DisWq) (replies : List SciReply)
      → IsWq wq
      → Returns (load o.cqs wq.cq)
      → Returns (stop_worker c r kmalloc msq_of ibpd o wq replies)
  unfolding run_out
  stop_worker-Returns o wq replies w (cq, live) = elim (stop_cases o wq replies) [
    | inl (none_runs, same) ↦ (_, same)
    | inr runs ↦ rw runs (
        rw (live, run_out)
          (Returns-map _ (dis_wq_consume_all c wq.wqe_max wq cq replies)
            (consume_all-Returns c wq cq replies w)))
  ]

  run_out-IsCompleting :
      (o : Objects) (wq : DisWq) (replies : List SciReply)
      → AllSome (λ out. IsCompleting o out.0) (run_out c r kmalloc msq_of ibpd o wq replies)
  unfolding run_out
  run_out-IsCompleting o wq replies = elim (Option-cases (load o.cqs wq.cq)) [
    | inl absent ↦ rw (absent, run_out) tt
    | inr (cq, live) ↦
        rw (live, run_out)
          (every_map (λ (out : Objects × DisWq). IsCompleting o out.0) _
            (dis_wq_consume_all c wq.wqe_max wq cq replies)
            (λ d. record {
              same_pd = refl;
              same_mrs = refl;
              same_qps = refl;
              cqs_live = store_live o.cqs wq.cq d.cq;
            }))
  ]

  stop_worker-IsCompleting :
      (o : Objects) (wq : DisWq) (replies : List SciReply)
      → AllSome (λ out. IsCompleting o out.0) (stop_worker c r kmalloc msq_of ibpd o wq replies)
  stop_worker-IsCompleting o wq replies = elim (stop_cases o wq replies) [
    | inl (none_runs, same) ↦ rw same (IsCompleting-refl o)
    | inr runs ↦ rw runs (run_out-IsCompleting o wq replies)
  ]

  -- Where it returns, the domain and its regions are as they were.
  pub destroyed-same :
      (o : Objects) (a : ℕ) (qp : DisQp) (rq_replies sq_replies : List SciReply)
      → AllSome
          (λ o'. (o'.pd ≡ o.pd) × (o'.mrs ≡ o.mrs))
          (destroyed c r kmalloc msq_of ibpd o a qp rq_replies sq_replies)
  unfolding destroyed
  destroyed-same o a qp rq_replies sq_replies =
      elim (Option-cases (stop_worker c r kmalloc msq_of ibpd o qp.rq rq_replies)) [
        | inl endless ↦ rw (endless, destroyed) tt
        | inr ((o1, rq), run) ↦
            let k1 = AllSome-elim _ (stop_worker-IsCompleting o qp.rq rq_replies) run in
            elim (Option-cases (stop_worker c r kmalloc msq_of ibpd o1 qp.sq sq_replies)) [
              | inl endless ↦ rw (run, destroyed, endless) tt
              | inr ((o2, sq), run') ↦
                  let k2 = AllSome-elim _ (stop_worker-IsCompleting o1 qp.sq sq_replies) run' in
                  rw (run, destroyed, run')
                    (every_map (λ (o' : Objects). (o'.pd ≡ o.pd) × (o'.mrs ≡ o.mrs)) _ _
                      (λ out. (k2.same_pd ∙ k1.same_pd, k2.same_mrs ∙ k1.same_mrs)))
            ]
      ]

  pub destroyed-IsObjects :
      (o : Objects) (a : ℕ) (qp : DisQp) (rq_replies sq_replies : List SciReply)
      → IsObjects o
      → IsPair o.pd a qp
      → AllSome IsObjects (destroyed c r kmalloc msq_of ibpd o a qp rq_replies sq_replies)
  unfolding destroyed
  destroyed-IsObjects o a qp rq_replies sq_replies v p =
      elim (Option-cases (stop_worker c r kmalloc msq_of ibpd o qp.rq rq_replies)) [
        | inl endless ↦ rw (endless, destroyed) tt
        | inr ((o1, rq), run) ↦
            let (v1, k1, _) =
              AllSome-elim _ (stop_worker-kept o qp.rq rq_replies v p.rq_ordered) run in
            elim (Option-cases (stop_worker c r kmalloc msq_of ibpd o1 qp.sq sq_replies)) [
              | inl endless ↦ rw (run, destroyed, endless) tt
              | inr ((o2, sq), run') ↦
                  let (v2, k2, _) =
                    AllSome-elim _ (stop_worker-kept o1 qp.sq sq_replies v1 p.sq_ordered) run' in
                  rw (run, destroyed, run')
                    (AllSome-map
                      (λ (out : Ret × Heap DisQp × List (Event QpResource)). out.1 ≡ free o2.qps a)
                      IsObjects (λ out. record o2 { qps = out.1 }) _
                      (λ out e.
                        with_qps o2 v2 out.1 (rw e (All-free (IsPair o2.pd) o2.qps a v2.pairs)))
                      (dis_destroy_qp-frees (stopped_as c r kmalloc msq_of ibpd rq sq) o2.qps a))
            ]
      ]

  pub destroyed-Returns :
      (o : Objects) (a : ℕ) (qp : DisQp) (rq_replies sq_replies : List SciReply)
      → IsObjects o
      → load o.qps a ≡ some qp
      → Returns (load o.cqs qp.rq.cq)
      → Returns (load o.cqs qp.sq.cq)
      → Returns (destroyed c r kmalloc msq_of ibpd o a qp rq_replies sq_replies)
  unfolding destroyed
  destroyed-Returns o a qp rq_replies sq_replies v live rq_cq sq_cq =
      let p = v.pairs a qp live in
      let ((o1, rq), run) = stop_worker-Returns o qp.rq rq_replies p.rq_ordered rq_cq in
      let (v1, k1, ends) =
        AllSome-elim _ (stop_worker-kept o qp.rq rq_replies v p.rq_ordered) run in
      let ((o2, sq), run') =
        stop_worker-Returns o1 qp.sq sq_replies p.sq_ordered (k1.cqs_live qp.sq.cq sq_cq) in
      let (v2, k2, ends') =
        AllSome-elim _ (stop_worker-kept o1 qp.sq sq_replies v1 p.sq_ordered) run' in
      rw (run, destroyed, run')
        (Returns-map _ _ (
          dis_destroy_qp-Returns (stopped_as c r kmalloc msq_of ibpd rq sq) o2.qps a
            (ap (λ h. load h a) (k2.same_qps ∙ k1.same_qps) ∙ live) ends ends'))
