-- ===== src/Thread/Wakeup.antt =====
-- What holds whenever the thread waits, and after it ended.
use dis_kverbs.Common.{
  ℕ, ◌≡◌, inl, inr, refl, ap, sym, ◌∙◌, true, false, List, [], Option, none, some, arith,
}
use dis_kverbs.Events.{replay}
use dis_kverbs.Common.Ring.{ring_contents_empty}
use dis_kverbs.Kernel.{CircBuf}
use dis_kverbs.Verbs.{Iovec, DisWq, wq_empty, wq_initialized, wq_exited, zero_wqe}
use dis_kverbs.Post.{Mem}
use dis_kverbs.Post.Shape.{post_one-IsPosted}
use dis_kverbs.Qp.Notify.{notified}
use dis_kverbs.Qp.Create.{dis_qp_exit}
use dis_kverbs.SciIf.{SciParams}
use dis_kverbs.Worker.Tail.{IsQueue, wq_waiting}
use dis_kverbs.Thread.{
  Pc, starting, waiting, gone, never_ran, System, Turn, start, join, give_up, clear, fetch, finish,
  advance, drained, wake, kill, stop, leave, turn, post, notify, tell, signal, poll, skip, Reach,
  here, next,
}
use dis_kverbs.Thread.Reached.{Reach-Inv}
use dis_kverbs.Thread.Inv.{Inv, same_end, state_at, held_at}

-- A queue whose thread was created, as dis_qp_init leaves it, before the thread runs.
pub record IsStart (s : System) : Type 0 where
  pub ordered : IsQueue s.wq
  pub state : s.wq.wq_state ≡ wq_initialized
  pub at_start : s.pc ≡ starting
  pub silent : s.posting ≡ false
  pub nothing_held : s.events ≡ []

pub start-Inv : {s : System} → IsStart s → Inv s
unfolding replay
start-Inv {s} v = record {
  ordered = v.ordered;
  state = v.state ∙ sym (ap state_at v.at_start);
  held = ap (replay same_end []) v.nothing_held ∙ sym (ap (λ k. some (held_at k s.wq)) v.at_start);
  busy = λ b. ground (arith, v.at_start);
  awake = λ w. cc (v.at_start);
}

gone_lem : (k : Pc) → state_at k ≡ wq_exited → k ≡ gone
gone_lem k e = ground arith

module _ (c : CircBuf) (p : SciParams) (kmalloc : ℕ → Option (ℕ × List Iovec)) (mem : Mem) where
  -- No wake-up is lost. However the thread and those that post interleave, in every state that can be
  -- reached in which the thread waits with the flag empty and no posting is without its notification,
  -- no entry waits.
  pub no_lost_wakeup :
      {s t : System}
      → IsStart s
      → Reach c p kmalloc mem s t
      → t.pc ≡ waiting
      → t.wq.wq_flag ≡ wq_empty
      → t.posting ≡ false
      → wq_waiting t.wq ≡ []
  no_lost_wakeup {s} {t} v r at flag silent =
      let inv = Reach-Inv c p kmalloc mem (start-Inv v) r in
      ring_contents_empty zero_wqe t.wq.buf t.wq.wqe_max t.wq.head t.wq.tail
        (ground (arith, inv.awake at))

  -- A queue that shows EXITED has given back every end of a message queue that its thread joined, and
  -- whenever an end was given back it was held.
  pub exited_holds_nothing :
      {s t : System}
      → IsStart s
      → Reach c p kmalloc mem s t
      → t.wq.wq_state ≡ wq_exited
      → replay same_end [] t.events ≡ some []
  exited_holds_nothing {s} {t} v r exited =
      let inv = Reach-Inv c p kmalloc mem (start-Inv v) r in
      let at : t.pc ≡ gone = gone_lem t.pc (sym inv.state ∙ exited) in
      inv.held ∙ ap (λ k. some (held_at k t.wq)) at

  -- A thread that never ran never will, and its queue keeps its state.
  record IsIdle (s : System) : Type 0 where
    never : s.pc ≡ never_ran
    shows : s.wq.wq_state ≡ wq_initialized

  Turn-IsIdle : {s t : System} → Turn c p s t → IsIdle s → IsIdle t
  Turn-IsIdle (start e) v = cc (v.never)
  Turn-IsIdle (join err e told ok) v = cc (v.never)
  Turn-IsIdle (give_up e told) v = cc (v.never)
  Turn-IsIdle (clear e told) v = cc (v.never)
  Turn-IsIdle (fetch e told left) v = cc (v.never)
  Turn-IsIdle (finish replies one e run ok) v = cc (v.never)
  Turn-IsIdle (advance e) v = cc (v.never)
  Turn-IsIdle (drained e told left) v = cc (v.never)
  Turn-IsIdle (wake e ready) v = cc (v.never)
  Turn-IsIdle (kill e pending) v = cc (v.never)
  Turn-IsIdle (stop (inl e) told) v = cc (v.never)
  Turn-IsIdle (stop (inr e) told) v = cc (v.never)
  Turn-IsIdle (leave e) v = cc (v.never)

  Reach-IsIdle : {s t : System} → IsIdle s → Reach c p kmalloc mem s t → IsIdle t
  Reach-IsIdle v here = v
  Reach-IsIdle v (next r (turn t)) = Turn-IsIdle t (Reach-IsIdle v r)
  Reach-IsIdle v (next {t} r (post opcode wr ret wq free run)) =
      let w = Reach-IsIdle v r in
      let q = post_one-IsPosted c kmalloc mem opcode t.wq wr ret wq run in
      record { never = w.never; shows = ap (λ (x : DisWq). x.wq_state) q.inert ∙ w.shows }
  Reach-IsIdle v (next {t} r (notify now)) =
      let w = Reach-IsIdle v r in
      record { never = w.never; shows = ap (λ (x : DisWq). x.wq_state) (notified t.wq) ∙ w.shows }
  Reach-IsIdle v (next r tell) =
      let w = Reach-IsIdle v r in record { never = w.never; shows = w.shows }
  Reach-IsIdle v (next r signal) =
      let w = Reach-IsIdle v r in record { never = w.never; shows = w.shows }
  Reach-IsIdle v (next r (poll n)) =
      let w = Reach-IsIdle v r in record { never = w.never; shows = w.shows }
  Reach-IsIdle v (next r (skip e told)) = cc ((Reach-IsIdle v r).never)

  -- A thread that is told to stop before it first runs may end without its function being called. From
  -- then on dis_qp_exit never returns: whatever happens, the queue never shows EXITED.
  pub exit_hangs :
      {s t : System}
      → IsStart s
      → Reach c p kmalloc mem (record s { told = true; pc = never_ran }) t
      → Reach c p kmalloc mem s (record s { told = true; pc = never_ran })
        × (dis_qp_exit (λ _. t.wq) s.wq ≡ none)
  unfolding dis_qp_exit
  exit_hangs {s} {t} v r =
      let idle = Reach-IsIdle (record { never = refl; shows = v.state }) r in
      (next (next here tell) (skip v.at_start refl), ground (arith, v.state, idle.shows))
