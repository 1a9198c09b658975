-- ===== src/Post/Interleave/Alone.antt =====
-- Posting that nothing interrupts is the function that Post has.
use dis_kverbs.Common.{
  ℕ, ◌≡◌, refl, ap, sym, ◌∙◌, false, ltb, Bool-cases, get_or, inl, inr, Option, none, some, List,
  [], ◌∷◌, ◌++◌,
}
use mathlib.Core.Option.{some-injective}
use dis_kverbs.Kernel.{CircBuf}
use dis_kverbs.Pd.{DisPd}
use dis_kverbs.Verbs.{Ret, done, fail, Iovec, WcOpcode, DisWqe, DisCq, DisWq, zero_wqe}
use dis_kverbs.SciIf.{SciReply}
use dis_kverbs.Worker.{consume_one, step_tail}
use dis_kverbs.Post.{IbWr, Mem, build_wqe, post_one, commit}
use dis_kverbs.Post.Refused.{post_one_open, post_one_full}
use dis_kverbs.Post.Interleave.{
  idle, WqShared, post_load, post_full, post_refuse, post_fill, post_publish, away, work_look,
  work_fetch, work_consume, work_release, WqAccesses, none_yet, more,
}

module _ (c : CircBuf) (kmalloc : ℕ → Option (ℕ × List Iovec)) (mem : Mem) (opcode : WcOpcode)
    (pd : DisPd) where
  -- A path to a state with the given queue, where the thread has left.
  abbrev Left : WqShared → DisWq → Type 0
  Left s wq' =
      (t : WqShared) × WqAccesses c kmalloc mem opcode pd s t
      × (t.wq ≡ wq')
      × (t.poster ≡ idle)
      × (t.worker ≡ s.worker)
      × (t.taken ≡ s.taken)

  commit_alone :
      (s : WqShared) (wr : IbWr) (o : Option (Ret × DisWqe)) {ret : Ret} {wq' : DisWq}
      → s.poster ≡ idle
      → ltb (c.circ_space s.wq.head s.wq.tail s.wq.wqe_max) 1 ≡ false
      → build_wqe c kmalloc mem opcode pd s.wq wr ≡ o
      → commit c kmalloc mem s.wq o ≡ some (ret, wq')
      → Left s wq'
  commit_alone s wr none at room built e = cc
  commit_alone s wr (some (fail n, w)) at room built e =
      let q = some-injective _ _ e in
      (
        _,
        more (more none_yet (post_load wr at))
            (post_refuse wr s.wq.head s.wq.tail n w refl room built),
        ap (λ (p : Ret × DisWq). p.1) q,
        refl,
        refl,
        refl,
      )
  commit_alone s wr (some (done, w)) at room built e =
      let q = some-injective _ _ e in
      (
        _,
        more
            (more (more none_yet (post_load wr at))
              (post_fill wr s.wq.head s.wq.tail w refl room built))
            (post_publish w s.wq.head refl),
        ap (λ (p : Ret × DisWq). p.1) q,
        refl,
        refl,
        refl,
      )

  -- Whatever one posting returns, its accesses alone, with nothing between them, lead to the queue that
  -- the function leaves.
  pub post_alone :
      (s : WqShared) (wr : IbWr) {ret : Ret} {wq' : DisWq}
      → mem.pd_of s.wq.ibqp ≡ some pd
      → s.poster ≡ idle
      → post_one c kmalloc mem opcode s.wq wr ≡ some (ret, wq')
      → Left s wq'
  post_alone s wr {ret} {wq'} found at e =
      elim (Bool-cases (ltb (c.circ_space s.wq.head s.wq.tail s.wq.wqe_max) 1)) [
        | inl full ↦
            let q =
              some-injective _ _
                (sym (post_one_full c kmalloc mem opcode pd s.wq wr found full) ∙ e) in
            (
              _,
              more (more none_yet (post_load wr at)) (post_full wr s.wq.head s.wq.tail refl full),
              ap (λ (p : Ret × DisWq). p.1) q,
              refl,
              refl,
              refl,
            )
        | inr room ↦
            commit_alone s wr (build_wqe c kmalloc mem opcode pd s.wq wr) at room refl
              (sym (post_one_open c kmalloc mem opcode pd s.wq wr found room) ∙ e)
      ]

  -- And a round of the worker alone takes the entry at the tail off, as dis_wq_consume_all does.
  pub work_alone :
      (s : WqShared) (cq : DisCq) (replies : List SciReply)
      → s.worker ≡ away
      → ltb (c.circ_cnt s.wq.head s.wq.tail s.wq.wqe_max) 1 ≡ false
      → let wqe = get_or s.wq.buf s.wq.tail zero_wqe in
        WqAccesses c kmalloc mem opcode pd s (record s {
          wq = step_tail s.wq (consume_one c s.wq.wq_type cq wqe replies).wqe;
          worker = away;
          taken = s.taken ++ wqe ∷ [];
        })
  work_alone s cq replies at some_left =
      more
        (more (more (more none_yet (work_look at)) (work_fetch s.wq.head refl some_left))
          (work_consume (get_or s.wq.buf s.wq.tail zero_wqe) cq replies refl))
        (work_release (get_or s.wq.buf s.wq.tail zero_wqe) refl)
