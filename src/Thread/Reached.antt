-- ===== src/Thread/Reached.antt =====
-- The invariant of a worker's thread in every state that it and those around it can reach.
use dis_kverbs.Common.{
  ℕ, ◌+◌, ◌<◌, ◌≡◌, ◌⊎◌, inl, inr, refl, ap, sym, subst, ◌∙◌, false, List, [], ◌∷◌, Option, some,
  arith, length, if◌then◌else◌,
}
use dis_kverbs.Common.Mask.{used_after_push}
use dis_kverbs.Kernel.{CircBuf}
use dis_kverbs.Verbs.{Ret, done, fail, Iovec, DisWq, wq_running}
use dis_kverbs.Circ.{circ_next-head, full_test}
use dis_kverbs.Post.{Mem}
use dis_kverbs.Post.Shape.{IsPosted, IsPosted-IsQueue, post_one-IsPosted}
use dis_kverbs.Qp.{dis_qp_notify}
use dis_kverbs.Qp.Notify.{notified, notify_flag}
use dis_kverbs.SciIf.{SciParams}
use dis_kverbs.Worker.Tail.{same_ring, IsQueue}
use dis_kverbs.Thread.{
  starting, never_ran, System, Step, turn, post, notify, tell, signal, poll, skip, Reach, here,
  next, joined, is_done,
}
use dis_kverbs.Thread.Inv.{Inv, wq_entries, state_at, holds, elsewhere, Turn-Inv}

module _ (c : CircBuf) (p : SciParams) where
  module _ (kmalloc : ℕ → Option (ℕ × List Iovec)) (mem : Mem) where
    posted_entries :
        (wq wq' : DisWq) (ret : Ret)
        → IsPosted c wq ret wq'
        → IsQueue wq
        → ((wq_entries wq' ≡ wq_entries wq) × (ret ≡ fail 42))
          ⊎ ((wq_entries wq' ≡ wq_entries wq + 1) × (ret ≡ done))
    posted_entries wq wq' ret q v =
        let size = ap (λ (w : DisWq). w.wqe_max) q.inert in
        let tail = ap (λ (w : DisWq). w.tail) q.inert in
        elim q.moved [
          | inl (failed, head) ↦ inl (rw (head, tail, size) refl, failed)
          | inr (ok, head, room) ↦
              let space : wq_entries wq + 1 < wq.wqe_max =
                ground (arith, full_test v.ring c, room) in
              inr (
                rw (head, tail, size, circ_next-head v.ring)
                    (used_after_push wq.wqe_max wq.head wq.tail v.ring.head_in v.ring.tail_in
                      space),
                ok,
              )
        ]

    post-Inv :
        {s : System} (ret : Ret) (wq : DisWq)
        → s.posting ≡ false
        → IsPosted c s.wq ret wq
        → Inv s
        → Inv (record s { wq = wq; posting = is_done ret })
    unfolding joined
    post-Inv {s} ret wq free q v =
        let entries = posted_entries s.wq wq ret q v.ordered in
        let flag = ap (λ (w : DisWq). w.wq_flag) q.inert in
        record {
          ordered = IsPosted-IsQueue q v.ordered;
          state = ap (λ (w : DisWq). w.wq_state) q.inert ∙ v.state;
          held =
              v.held
              ∙ ap (λ (w : DisWq). some (if holds s.pc then joined w ∷ [] else [])) (sym q.inert);
          busy = λ b. ground (arith, entries, v.busy b);
          awake = λ w. ground (arith, entries, v.awake w, flag);
        }

    notify-Inv :
        {s : System} → Inv s → Inv (record s { wq = (dis_qp_notify s.wq).1; posting = false })
    unfolding joined
    notify-Inv {s} v =
        let told = notified s.wq in
        let same = λ (w : DisWq). some (if holds s.pc then joined w ∷ [] else []) in
        record {
          ordered =
              same_ring s.wq (dis_qp_notify s.wq).1 (ap (λ (w : DisWq). w.head) told)
                (ap (λ (w : DisWq). w.tail) told) (ap (λ (w : DisWq). w.wqe_max) told)
                (ap (λ (w : DisWq). length w.buf) told) v.ordered;
          state = ap (λ (w : DisWq). w.wq_state) told ∙ v.state;
          held = v.held ∙ ap same (sym told);
          busy = λ b. subst (λ (w : DisWq). 0 < wq_entries w) (sym told) (v.busy b);
          awake = λ w.
              let runs : s.wq.wq_state ≡ wq_running = v.state ∙ ap state_at w in
              inr (inr (notify_flag s.wq (λ e. cc)));
        }

    pub Step-Inv : {s t : System} → Step c p kmalloc mem s t → Inv s → Inv t
    Step-Inv (turn t) v = Turn-Inv c p t v
    Step-Inv {s} (post opcode wr ret wq free run) v =
        post-Inv ret wq free (post_one-IsPosted c kmalloc mem opcode s.wq wr ret wq run) v
    Step-Inv {s} (notify now) v = notify-Inv v
    Step-Inv {s} tell v = record {
      ordered = v.ordered;
      state = v.state;
      held = v.held;
      busy = v.busy;
      awake = v.awake;
    }
    Step-Inv signal v = record {
      ordered = v.ordered;
      state = v.state;
      held = v.held;
      busy = v.busy;
      awake = v.awake;
    }
    Step-Inv (poll n) v = record {
      ordered = v.ordered;
      state = v.state;
      held = v.held;
      busy = v.busy;
      awake = v.awake;
    }
    Step-Inv {s} (skip e told) v =
        elsewhere starting never_ran e refl refl (λ b. ground arith) (λ w. cc) v

    -- Every step keeps the invariant, so it holds in every state that can be reached.
    pub Reach-Inv : {s t : System} → Inv s → Reach c p kmalloc mem s t → Inv t
    Reach-Inv v here = v
    Reach-Inv v (next r st) = Step-Inv st (Reach-Inv v r)
