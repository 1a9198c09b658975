-- ===== src/Post/Build.antt =====
-- The slot of a work queue that dis_qp_post_one_sqe and _rqe fill, for a request whose segments lie
-- in live regions.
use dis_kverbs.Common.{
  ℕ, ◌+◌, ◌≤◌, ◌<◌, ◌≡◌, List, Option, some, arith, length, refl, ap, ◌∙◌, sym, subst, take, get_or,
}
use native.Mathlib.Nat.{zero-add}
use dis_kverbs.Common.Ring.{ring_used, ring_contents}
use dis_kverbs.Kernel.{CircBuf}
use dis_kverbs.Circ.{IsRing}
use dis_kverbs.Pd.{DisPd}
use dis_kverbs.Verbs.{
  done, WcOpcode, Iovec, DisMr, DisWqe, DisWq, zero_wqe, u32, dis_max_iovlen, dis_sge_per_wqe,
}
use dis_kverbs.Post.{
  IbWr, Mem, DisSgeMap, counted, count_sges, stored, choose_store, fill_wqe, cells_of, with_cells,
  init_wqe, used_sges, fill_stored, map_counted, build_wqe,
}
use dis_kverbs.Post.Spec.{AllIn, all_bytes, sges_bytes, sges_len, sges_touched, sges_counted}
use dis_kverbs.Post.Count.{sge_maps, count_sges_lem, sges_touched-le-counted}
pub use dis_kverbs.Post.Filled.{Granted}
use dis_kverbs.Post.Filled.{
  IsStored, fill_wqe_lem, cells_of_byte_len, with_cells_lem, choose_store_lem,
}

-- The queue's indices and slots are in order, and the array of each slot has its four elements.
pub record IsWq (wq : DisWq) : Type 0 where
  pub ring : IsRing wq.wqe_max wq.head wq.tail (length wq.buf)
  pub arrays :
      (i : ℕ) → i < wq.wqe_max → length (get_or wq.buf i zero_wqe).page_map_static ≡ dis_sge_per_wqe

abbrev pub wq_used : DisWq → ℕ
wq_used wq = ring_used wq.wqe_max wq.head wq.tail

-- The entries that wait, oldest first.
abbrev pub wq_contents : DisWq → List DisWqe
wq_contents wq = ring_contents zero_wqe wq.buf wq.wqe_max wq.head wq.tail

-- The entry that a request makes. Its first elements, as many as the segments touch pages, name the bytes;
-- `iovlen` may count more of them.
pub record IsBuilt (opcode : WcOpcode) (wq : DisWq) (wr : IbWr) (rs : List DisMr) (wqe : DisWqe)
    : Type 0 where
  pub named :
      all_bytes (take (sges_touched rs (used_sges wr)) (cells_of wqe.iov wqe))
      ≡ sges_bytes rs (used_sges wr)
  pub bytes : wqe.byte_len ≡ u32 (sges_len (used_sges wr))
  pub elements : wqe.iovlen ≡ sges_counted rs (used_sges wr)
  pub room : sges_counted rs (used_sges wr) ≤ length (cells_of wqe.iov wqe)
  pub identity : wqe.wr_id ≡ u32 wr.wr_id
  pub kind : wqe.opcode ≡ opcode
  pub owner : wqe.ibqp ≡ wq.ibqp
  pub array : length wqe.page_map_static ≡ dis_sge_per_wqe

module _ (c : CircBuf) (kmalloc : ℕ → Option (ℕ × List Iovec)) (mem : Mem) where
  module _ (opcode : WcOpcode) (pd : DisPd) (wq : DisWq) (wr : IbWr) (rs : List DisMr) where
    -- The entry after the first loop, and after the second.
    counted_wqe : DisWqe
    counted_wqe =
        let wqe = init_wqe opcode wq wr (get_or wq.buf wq.head zero_wqe) in
        record wqe { iovlen = wqe.iovlen + sges_counted rs (used_sges wr) }

    finish :
        (wqe : DisWqe) (cells : List Iovec)
        → IsStored counted_wqe wqe
        → length (get_or wq.buf wq.head zero_wqe).page_map_static ≡ dis_sge_per_wqe
        → length cells ≡ length (cells_of wqe.iov wqe)
        → all_bytes (take (sges_touched rs (used_sges wr)) cells) ≡ sges_bytes rs (used_sges wr)
        → IsBuilt opcode wq wr rs
            (with_cells wqe.iov cells (record wqe { byte_len = u32 (sges_len (used_sges wr)) }))
    unfolding counted_wqe init_wqe
    finish wqe cells st array len named =
        let wqe' : DisWqe = record wqe { byte_len = u32 (sges_len (used_sges wr)) } in
        let (cells_eq, array_eq, kept) =
          with_cells_lem wqe.iov cells wqe' refl (
            len
            ∙ ap length (sym (cells_of_byte_len wqe.iov wqe (u32 (sges_len (used_sges wr)))))) in
        record {
          named = ap (λ l. all_bytes (take (sges_touched rs (used_sges wr)) l)) cells_eq ∙ named;
          bytes = kept.kept_byte_len;
          elements = kept.kept_iovlen ∙ st.same_iovlen ∙ zero-add _;
          room = rw cells_eq (omega (arith, st.space));
          identity = kept.kept_wr_id ∙ st.same_wr_id;
          kind = kept.kept_opcode ∙ st.same_opcode;
          owner = kept.kept_ibqp ∙ st.same_ibqp;
          array = array_eq ∙ ap length st.same_array ∙ array;
        }

    fill_stored_step :
        (ms : List DisSgeMap) (wqe : DisWqe) {wqe' : DisWqe}
        → fill_wqe ms wqe ≡ some wqe'
        → fill_stored c kmalloc mem ms (stored wqe) ≡ some (done, wqe')
    unfolding fill_stored
    fill_stored_step ms wqe run = rw (run, fill_stored)

    build_wqe_step :
        (ms : List DisSgeMap) (wqe wqe' : DisWqe)
        → count_sges mem.mrs pd 0
            (used_sges wr)
            (init_wqe opcode wq wr (get_or wq.buf wq.head zero_wqe))
          ≡ counted counted_wqe ms
        → choose_store kmalloc counted_wqe ≡ stored wqe
        → fill_wqe ms wqe ≡ some wqe'
        → build_wqe c kmalloc mem opcode pd wq wr ≡ some (done, wqe')
    unfolding build_wqe map_counted
    build_wqe_step ms wqe wqe' count store run = rw (count, store) (fill_stored_step ms wqe run)

    pub build_wqe_lem :
        AllIn mem.mrs pd rs (used_sges wr)
        → sges_counted rs (used_sges wr) ≤ dis_max_iovlen
        → Granted kmalloc (sges_counted rs (used_sges wr))
        → length (get_or wq.buf wq.head zero_wqe).page_map_static ≡ dis_sge_per_wqe
        → (wqe : DisWqe) × (build_wqe c kmalloc mem opcode pd wq wr ≡ some (done, wqe))
          × IsBuilt opcode wq wr rs wqe
    unfolding counted_wqe init_wqe
    build_wqe_lem a small granted array =
        let n = sges_counted rs (used_sges wr) in
        let count =
          count_sges_lem mem.mrs pd 0 rs (used_sges wr)
            (init_wqe opcode wq wr (get_or wq.buf wq.head zero_wqe)) a in
        let zero_n : 0 + n ≡ n = omega arith in
        let (wqe, store, st) =
          choose_store_lem kmalloc counted_wqe (omega arith) array
            (subst (Granted kmalloc) (sym zero_n) granted) in
        let (cells, run, len, named) =
          fill_wqe_lem mem.mrs pd rs (used_sges wr) wqe a st.same_byte_len
            (omega (arith, st.space, sges_touched-le-counted mem.mrs pd rs (used_sges wr) a)) in
        (
          with_cells wqe.iov cells (record wqe { byte_len = u32 (sges_len (used_sges wr)) }),
          build_wqe_step (sge_maps rs (used_sges wr)) wqe _ count store run,
          finish wqe cells st array len named,
        )
