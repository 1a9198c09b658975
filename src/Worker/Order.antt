-- ===== src/Worker/Order.antt =====
-- The completions of a worker's run, in the order of the entries.
use dis_kverbs.Common.{
  ◌+◌, ◌<◌, ◌≡◌, List, [], ◌∷◌, ◌++◌, some, arith, refl, ap, ap₂, ◌∙◌, sym, length, length-append,
  subst, append_assoc, append-nil, ◌⊎◌, inl, inr,
}
use dis_kverbs.Common.Ring.{ring_used, length-ring_contents}
use dis_kverbs.Kernel.{CircBuf}
use dis_kverbs.Verbs.{done, fail, DisWqe, DisCqe, DisCq, DisWq, DisWqType, zero_wqe}
use dis_kverbs.Circ.{ring_used-lt}
use dis_kverbs.Cq.{cqe_of}
use dis_kverbs.Cq.Inv.{IsValid, used, contents, length-contents}
use dis_kverbs.SciIf.{SciReply}
use dis_kverbs.Worker.{Consumed, consume_one, Drained, dis_wq_consume_all}
use dis_kverbs.Worker.Complete.{
  consume_one-IsCompleted, complete_sqe-contents, cqe_ids, wqe_ids, Label, cqe_label, wqe_label,
}
use dis_kverbs.Worker.Drain.{
  Outcome, drain, IsQueue, wq_waiting, outcome_of, consume_all-drain, drain_more, drain_stopped,
  drain_empty,
}

-- From `cq` the run added completions for the entries that it took, in their order, and the others
-- still wait.
pub record IsOrdered (cq : DisCq) (wqes : List DisWqe) (o : Outcome) : Type 0 where
  pub new : List DisCqe
  pub added : contents o.cq ≡ contents cq ++ new
  pub in_order : cqe_ids new ++ wqe_ids o.waiting ≡ wqe_ids wqes
  pub valid : IsValid o.cq
  pub ended : (o.ret ≡ fail 42) ⊎ ((o.ret ≡ done) × (o.waiting ≡ []))

module _ (c : CircBuf) where
  pub one-added :
      (type : DisWqType) {cq : DisCq} (wqe : DisWqe) (rs : List SciReply)
      → IsValid cq
      → used cq + 1 < cq.cqe_max
      → let one = consume_one c type cq wqe rs in
        (e : DisCqe) × (contents one.cq ≡ contents cq ++ e ∷ [])
        × (cqe_label e ≡ wqe_label wqe)
        × IsValid one.cq
        × (one.cq.cqe_max ≡ cq.cqe_max)
  unfolding cqe_of
  one-added type {cq} wqe rs v room =
      let k = consume_one-IsCompleted c type cq wqe rs in
      let (more, v', size) = complete_sqe-contents c k.entry k.verdict k.rest v room in
      let back = sym k.posted_once in
      (
        cqe_of k.entry k.verdict,
        ap (λ (o : Consumed). contents o.cq) k.posted_once ∙ more,
        k.same_label,
        subst (λ (o : Consumed). IsValid o.cq) back v',
        ap (λ (o : Consumed). o.cq.cqe_max) k.posted_once ∙ size,
      )

  pub used-added :
      (cq cq' : DisCq) (e : DisCqe) → contents cq' ≡ contents cq ++ e ∷ [] → used cq' ≡ used cq + 1
  used-added cq cq' e more = omega (
    arith,
    sym (length-contents cq'),
    ap length more,
    length-append (contents cq) (e ∷ []),
    length-contents cq,
  )

  -- Room for a completion of each entry is enough for a run to complete, in order, the entries that it
  -- takes.
  pub drain-IsOrdered :
      (type : DisWqType) (cq : DisCq) (wqes : List DisWqe) (rs : List SciReply)
      → IsValid cq
      → used cq + length wqes < cq.cqe_max
      → IsOrdered cq wqes (drain c type cq wqes rs)
  drain-IsOrdered type cq wqes [] v room = rw (drain_stopped c type cq wqes) (record {
    new = [];
    added = sym (append-nil (contents cq));
    in_order = refl;
    valid = v;
    ended = inl refl;
  })
  drain-IsOrdered type cq [] (r ∷ rs) v room = rw (drain_empty c type cq r rs) (record {
    new = [];
    added = sym (append-nil (contents cq));
    in_order = refl;
    valid = v;
    ended = inr (refl, refl);
  })
  drain-IsOrdered type cq (wqe ∷ wqes) (r ∷ rs) v room =
      let one = consume_one c type cq wqe (r ∷ rs) in
      let (e, more, same_label, v', size) = one-added type wqe (r ∷ rs) v (omega arith) in
      let rest =
        drain-IsOrdered type one.cq wqes one.replies v'
          (omega (arith, room, size, used-added cq one.cq e more)) in
      rw (drain_more c type cq wqe wqes r rs) (record {
        new = e ∷ rest.new;
        added =
            rest.added
            ∙ ap (λ l. l ++ rest.new) more
            ∙ append_assoc (contents cq) (e ∷ []) rest.new;
        in_order = ap₂ ◌∷◌ (ap (λ (l : Label). l.wr_id) same_label) rest.in_order;
        valid = rest.valid;
        ended = rest.ended;
      })

  -- Let the work queue and the completion queue be valid, with room for a completion of each entry that
  -- waits, and give the run a round for each slot. Then, whatever the message library answers and
  -- whenever the thread is told to stop, the run ends: it added one completion for each entry that it
  -- took, with the entry's id and in the entries' order, behind those that were there; the other
  -- entries still wait, in order; it returned 0 with no entry left, or -42; and both queues are valid.
  pub dis_wq_consume_all-IsOrdered :
      (wq : DisWq) (cq : DisCq) (replies : List SciReply)
      → IsQueue wq
      → IsValid cq
      → used cq + ring_used wq.wqe_max wq.head wq.tail < cq.cqe_max
      → (d : Drained) × (dis_wq_consume_all c wq.wqe_max wq cq replies ≡ some d)
        × IsOrdered cq (wq_waiting wq) (outcome_of d)
        × IsQueue d.wq
  dis_wq_consume_all-IsOrdered wq cq replies w v room =
      let (d, run, same, w') =
        consume_all-drain c wq.wqe_max wq cq replies w (ring_used-lt w.ring) in
      let size = length-ring_contents zero_wqe wq.buf wq.wqe_max wq.head wq.tail in
      (
        d,
        run,
        subst (IsOrdered cq (wq_waiting wq)) (sym same)
            (drain-IsOrdered wq.wq_type cq (wq_waiting wq) replies v (omega (arith, size, room))),
        w',
      )
