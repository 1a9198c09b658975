-- ===== src/Worker/Keeps.antt =====
-- What a worker's run leaves in order, with room for the completions or without.
use dis_kverbs.Common.{
  ℕ, zero, suc, ◌≡◌, refl, ap, ◌∙◌, sym, subst, length, List, [], ◌∷◌, Bool-cases, inl, inr, ltb,
  get_or, AllSome, AllSome-map,
}
use dis_kverbs.Kernel.{CircBuf}
use dis_kverbs.Verbs.{DisWqe, DisCq, DisWq, DisWqType, zero_wqe}
use dis_kverbs.Cq.Inv.{IsValid}
use dis_kverbs.Cq.Refine.{post_refines}
use dis_kverbs.SciIf.{SciReply}
use dis_kverbs.Worker.{Consumed, Drained, consume_one, kfree_map, step_tail, dis_wq_consume_all}
use dis_kverbs.Worker.Complete.{consume_one-IsCompleted}
use dis_kverbs.Post.Build.{IsWq}
use dis_kverbs.Post.Correct.{arrays-set}
use dis_kverbs.Worker.Tail.{step_tail-IsQueue}

-- Both queues are in order, and the work queue stays with the pair at `owner`.
pub record IsRun (owner : ℕ) (d : Drained) : Type 0 where
  pub ordered : IsWq d.wq
  pub valid : IsValid d.cq
  pub same_owner : d.wq.ibqp ≡ owner

-- The tail's entry is put back with its own array.
step_tail-IsWq :
    (wq : DisWq) (wqe : DisWqe)
    → wqe.page_map_static ≡ (get_or wq.buf wq.tail zero_wqe).page_map_static
    → IsWq wq
    → IsWq (step_tail wq wqe)
step_tail-IsWq wq wqe same v = record {
  ring = (step_tail-IsQueue wq wqe (record { ring = v.ring })).ring;
  arrays =
      arrays-set wq wq.tail wqe v v.ring.tail_in (ap length same ∙ v.arrays wq.tail v.ring.tail_in);
}

module _ (c : CircBuf) where
  one-array :
      (type : DisWqType) (cq : DisCq) (wqe : DisWqe) (rs : List SciReply)
      → (consume_one c type cq wqe rs).wqe.page_map_static ≡ wqe.page_map_static
  one-array type cq wqe rs =
      let k = consume_one-IsCompleted c type cq wqe rs in
      ap (λ (o : Consumed). o.wqe.page_map_static) k.posted_once ∙ k.same_array

  one-IsValid :
      (type : DisWqType) (cq : DisCq) (wqe : DisWqe) (rs : List SciReply)
      → IsValid cq
      → IsValid (consume_one c type cq wqe rs).cq
  one-IsValid type cq wqe rs v =
      let k = consume_one-IsCompleted c type cq wqe rs in
      subst (λ (o : Consumed). IsValid o.cq) (sym k.posted_once)
        (post_refines c k.entry k.verdict v).1

  pub consume_all-IsRun :
      (fuel : ℕ) (wq : DisWq) (cq : DisCq) (rs : List SciReply)
      → IsWq wq
      → IsValid cq
      → AllSome (IsRun wq.ibqp) (dis_wq_consume_all c fuel wq cq rs)
  unfolding dis_wq_consume_all
  consume_all-IsRun zero wq cq [] q v = record { ordered = q; valid = v; same_owner = refl }
  consume_all-IsRun zero wq cq (r ∷ rs) q v = tt
  consume_all-IsRun (suc fuel) wq cq [] q v = record { ordered = q; valid = v; same_owner = refl }
  consume_all-IsRun (suc fuel) wq cq (r ∷ rs) q v =
      elim (Bool-cases (ltb (c.circ_cnt wq.head wq.tail wq.wqe_max) 1)) [
        | inl empty ↦ rw empty (record { ordered = q; valid = v; same_owner = refl })
        | inr more ↦
            let wqe = get_or wq.buf wq.tail zero_wqe in
            let one = consume_one c wq.wq_type cq wqe (r ∷ rs) in
            let run = dis_wq_consume_all c fuel (step_tail wq one.wqe) one.cq one.replies in
            rw more (
              AllSome-map (IsRun wq.ibqp) (IsRun wq.ibqp)
                (λ (d : Drained). record d { freed = kfree_map one.wqe d.freed }) run
                (λ d v. record { ordered = v.ordered; valid = v.valid; same_owner = v.same_owner })
                (consume_all-IsRun fuel (step_tail wq one.wqe) one.cq one.replies
                  (step_tail-IsWq wq one.wqe (one-array wq.wq_type cq wqe (r ∷ rs)) q)
                  (one-IsValid wq.wq_type cq wqe (r ∷ rs) v)))
      ]
