-- ===== src/Thread/Waiting.antt =====
-- What a path of steps does to the entries that are left to do.
use dis_kverbs.Common.{
  ℕ, ◌+◌, ◌≤◌, ◌<◌, ◌≡◌, inl, inr, refl, ap, sym, ◌∙◌, List, [], ◌∷◌, ◌++◌, Option, arith,
  append_assoc, append-nil, get_or, if◌then◌else◌, get_or-set_self, set,
}
use dis_kverbs.Common.Ring.{
  ring_contents-set_head, ring_contents-set_tail, ring_contents_push, ring_contents_pop, ring_used,
}
use dis_kverbs.Kernel.{CircBuf}
use dis_kverbs.Verbs.{Ret, Iovec, DisWqe, DisWq, zero_wqe, circ_next}
use dis_kverbs.Circ.{full_test, circ_next-head, circ_next-tail}
use dis_kverbs.Post.{Mem}
use dis_kverbs.Post.Shape.{IsPosted, post_one-IsPosted}
use dis_kverbs.Qp.{dis_qp_notify}
use dis_kverbs.Qp.Notify.{notified}
use dis_kverbs.SciIf.{SciParams}
use dis_kverbs.Worker.Tail.{IsQueue}
use dis_kverbs.Thread.{
  Pc, starting, connecting, clearing, consuming, processing, waiting, leaving, gone, never_ran,
  System, Turn, start, join, give_up, clear, fetch, finish, advance, drained, wake, kill, stop,
  leave, Step, turn, post, notify, tell, signal, poll, skip, Reach, here, next, is_done,
}
use dis_kverbs.Thread.Inv.{Inv, wq_entries}
use dis_kverbs.Thread.Unfinished.{begin_at, begin_same, begin_in, entries_from, unfinished}
use dis_kverbs.Thread.Reached.{Reach-Inv}
use dis_kverbs.Thread.Trace.{posts, takes, along, took}

module _ (c : CircBuf) (p : SciParams) where
  posted_entries_from :
      (t : ℕ) (wq wq' : DisWq) (ret : Ret)
      → IsPosted c wq ret wq'
      → IsQueue wq
      → t < wq.wqe_max
      → ring_used wq.wqe_max wq.head t ≤ wq_entries wq
      → entries_from wq t ++ (if is_done ret then get_or wq'.buf wq.head zero_wqe ∷ [] else [])
        ≡ entries_from wq' t
  posted_entries_from t wq wq' ret q v inside fewer =
      let r = v.ring in
      let size = ap (λ (w : DisWq). w.wqe_max) q.inert in
      elim q.moved [
        | inl (failed, head) ↦
            rw (failed, append-nil, head, size, q.buffer)
              (sym (
                ring_contents-set_head zero_wqe wq.buf wq.wqe_max wq.head t r.head_in inside
                  q.entry))
        | inr (ok, head, room) ↦
            let space : ring_used wq.wqe_max wq.head wq.tail + 1 < wq.wqe_max =
              ground (arith, full_test r c) in
            rw
              (
                ok,
                head,
                size,
                q.buffer,
                circ_next-head r,
                get_or-set_self wq.buf wq.head q.entry zero_wqe
                    (omega (arith, r.filled, r.head_in)),
              )
              (sym (
                ring_contents_push zero_wqe wq.buf wq.wqe_max wq.head t r.head_in inside q.entry
                  r.filled (omega (arith, space, fewer))))
      ]

  posted_unfinished :
      (s : System) (wq' : DisWq) (ret : Ret)
      → IsPosted c s.wq ret wq'
      → Inv s
      → unfinished s ++ (if is_done ret then get_or wq'.buf s.wq.head zero_wqe ∷ [] else [])
        ≡ entries_from wq' (begin_at s.pc wq')
  posted_unfinished s wq' ret q v =
      let (inside, fewer) = begin_in s v in
      posted_entries_from (begin_at s.pc s.wq) s.wq wq' ret q v.ordered inside fewer
      ∙ ap (entries_from wq') (
          sym (
            begin_same s.pc s.wq wq' (ap (λ (w : DisWq). w.tail) q.inert)
              (ap (λ (w : DisWq). w.wqe_max) q.inert)))

  -- From one place to another that begins at the same entry.
  moved_on :
      (s : System) (k l : Pc)
      → s.pc ≡ k
      → begin_at k s.wq ≡ begin_at l s.wq
      → unfinished s ≡ entries_from s.wq (begin_at l s.wq)
  moved_on s k l at same = ap (entries_from s.wq) (ap (λ j. begin_at j s.wq) at ∙ same)

  finished_unfinished :
      (s : System) (e : DisWqe)
      → IsQueue s.wq
      → s.pc ≡ processing
      → 0 < wq_entries s.wq
      → unfinished s
        ≡ get_or s.wq.buf s.wq.tail zero_wqe
          ∷ entries_from
              (record (s.wq) { buf = set s.wq.buf s.wq.tail e })
              (circ_next s.wq.tail s.wq.wqe_max)
  finished_unfinished s e v at some_used =
      let r = v.ring in
      let q = s.wq in
      moved_on s processing consuming at refl
      ∙ ring_contents_pop zero_wqe q.buf q.wqe_max q.head q.tail r.head_in r.tail_in some_used
      ∙ ap (λ l. get_or q.buf q.tail zero_wqe ∷ l)
          (rw (circ_next-tail r) (
            sym (
              ring_contents-set_tail zero_wqe q.buf q.wqe_max q.head q.tail r.head_in r.tail_in e
                some_used)))

  taken_unfinished :
      {s t : System} (st : Turn c p s t) → Inv s → unfinished s ≡ took c p s t st ++ unfinished t
  taken_unfinished {s} (start at) v = moved_on s starting connecting at refl
  taken_unfinished {s} (join err at free ok) v = moved_on s connecting clearing at refl
  taken_unfinished {s} (give_up at told) v = moved_on s connecting gone at refl
  taken_unfinished {s} (clear at free) v = moved_on s clearing consuming at refl
  taken_unfinished {s} (fetch at free left) v = moved_on s consuming processing at refl
  taken_unfinished {s} (finish replies one at run ok) v =
      finished_unfinished s one.wqe v.ordered at (v.busy (inl at))
  taken_unfinished {s} (advance at) v = ap (λ k. entries_from s.wq (begin_at k s.wq)) at
  taken_unfinished {s} (drained at free left) v = moved_on s consuming waiting at refl
  taken_unfinished {s} (wake at ready) v = moved_on s waiting clearing at refl
  taken_unfinished {s} (kill at pending) v = moved_on s waiting leaving at refl
  taken_unfinished {s} (stop (inl at) told) v = moved_on s clearing leaving at refl
  taken_unfinished {s} (stop (inr at) told) v = moved_on s consuming leaving at refl
  taken_unfinished {s} (leave at) v = moved_on s leaving gone at refl

  module _ (kmalloc : ℕ → Option (ℕ × List Iovec)) (mem : Mem) where
    Step-unfinished :
        {s t : System} (st : Step c p kmalloc mem s t)
        → Inv s
        → unfinished s ++ posts c p kmalloc mem s t st
          ≡ takes c p kmalloc mem s t st ++ unfinished t
    Step-unfinished {s} (turn st) v = append-nil (unfinished s) ∙ taken_unfinished st v
    Step-unfinished {s} (post opcode wr ret wq free run) v =
        posted_unfinished s wq ret (post_one-IsPosted c kmalloc mem opcode s.wq wr ret wq run) v
    Step-unfinished {s} (notify now) v =
        append-nil (unfinished s)
        ∙ sym (
            ap (λ w. entries_from w (begin_at s.pc w)) (notified s.wq)
            ∙ ap (entries_from s.wq) (
                begin_same s.pc s.wq (record (s.wq) { wq_flag = (dis_qp_notify s.wq).1.wq_flag })
                  refl refl))
    Step-unfinished {s} tell v = append-nil (unfinished s)
    Step-unfinished {s} signal v = append-nil (unfinished s)
    Step-unfinished {s} (poll n) v = append-nil (unfinished s)
    Step-unfinished {s} (skip at told) v =
        append-nil (unfinished s) ∙ moved_on s starting never_ran at refl

    -- The entries that were there and those that are posted are those that are taken and those that are
    -- left.
    pub path_unfinished :
        {s t : System}
        → Inv s
        → (r : Reach c p kmalloc mem s t)
        → unfinished s ++ along c p kmalloc mem (posts c p kmalloc mem) r
          ≡ along c p kmalloc mem (takes c p kmalloc mem) r ++ unfinished t
    path_unfinished {s} v here = append-nil (unfinished s)
    path_unfinished {s} v (next {t} {u} r st) =
        let before = along c p kmalloc mem (takes c p kmalloc mem) r in
        sym (append_assoc (unfinished s) _ (posts c p kmalloc mem t u st))
        ∙ ap (λ l. l ++ posts c p kmalloc mem t u st) (path_unfinished v r)
        ∙ append_assoc before (unfinished t) _
        ∙ ap (λ l. before ++ l) (Step-unfinished st (Reach-Inv c p kmalloc mem v r))
        ∙ sym (append_assoc before _ (unfinished u))
