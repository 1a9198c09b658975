-- ===== src/Post/TooLong.antt =====
-- Posting a request that needs more elements than an array may have.
use dis_kverbs.Common.{
  ℕ, ◌+◌, ◌<◌, ◌≡◌, List, Option, some, arith, refl, ltb, lt→ltb, Bool-cases, inl, inr, get_or, ap,
  ◌∙◌,
}
use dis_kverbs.Kernel.{CircBuf}
use dis_kverbs.Pd.{DisPd}
use dis_kverbs.Verbs.{fail, WcOpcode, Iovec, DisMr, DisWqe, DisWq, zero_wqe, dis_max_iovlen}
use dis_kverbs.Post.{
  IbWr, Mem, used_sges, init_wqe, choose_store, no_store, map_counted, fill_stored, build_wqe,
  post_one, commit,
}
use dis_kverbs.Post.Spec.{AllIn, sges_counted}
use dis_kverbs.Post.Count.{count_sges_lem}
use dis_kverbs.Post.Refused.{post_one_open, post_one_full}

module _ (c : CircBuf) (kmalloc : ℕ → Option (ℕ × List Iovec)) (mem : Mem) where
  no_room_for :
      (wqe : DisWqe) → dis_max_iovlen < wqe.iovlen → choose_store kmalloc wqe ≡ no_store wqe
  unfolding choose_store
  no_room_for wqe many = rw (lt→ltb dis_max_iovlen wqe.iovlen many) refl

  build_wqe_too_long :
      (opcode : WcOpcode) (pd : DisPd) (wq : DisWq) (wr : IbWr) (rs : List DisMr)
      → AllIn mem.mrs pd rs (used_sges wr)
      → dis_max_iovlen < sges_counted rs (used_sges wr)
      → (wqe : DisWqe) × (build_wqe c kmalloc mem opcode pd wq wr ≡ some (fail 42, wqe))
  unfolding build_wqe map_counted fill_stored init_wqe
  build_wqe_too_long opcode pd wq wr rs a many =
      let wqe = init_wqe opcode wq wr (get_or wq.buf wq.head zero_wqe) in
      let counted = record wqe { iovlen = wqe.iovlen + sges_counted rs (used_sges wr) } in
      (
        counted,
        ap (map_counted c kmalloc mem) (count_sges_lem mem.mrs pd 0 rs (used_sges wr) wqe a)
            ∙ ap (fill_stored c kmalloc mem _) (no_room_for counted (omega (arith, many))),
      )

  -- It is refused, whether the queue is full or not.
  pub post_one_too_long :
      (opcode : WcOpcode) (pd : DisPd) (wq : DisWq) (wr : IbWr) (rs : List DisMr)
      → mem.pd_of wq.ibqp ≡ some pd
      → AllIn mem.mrs pd rs (used_sges wr)
      → dis_max_iovlen < sges_counted rs (used_sges wr)
      → (wq' : DisWq) × (post_one c kmalloc mem opcode wq wr ≡ some (fail 42, wq'))
  post_one_too_long opcode pd wq wr rs found a many =
      elim (Bool-cases (ltb (c.circ_space wq.head wq.tail wq.wqe_max) 1)) [
        | inl full ↦ (wq, post_one_full c kmalloc mem opcode pd wq wr found full)
        | inr spare ↦
            let (wqe, built) = build_wqe_too_long opcode pd wq wr rs a many in
            (
              _,
              post_one_open c kmalloc mem opcode pd wq wr found spare
                  ∙ ap (commit c kmalloc mem wq) built,
            )
      ]
