-- ===== src/Transfer/Registered.antt =====
-- User memory that dis_reg_user_mr registers and a posted request names.
use dis_kverbs.Common.{
  ℕ, ◌+◌, ◌-◌, ◌/◌, ◌%◌, ◌^◌, ◌≤◌, ◌<◌, ◌≡◌, refl, ap, sym, subst, ◌∙◌, arith, true, List, [], ◌∷◌,
  ◌++◌, Option, some, get_or, take, tabulate, tabulate_congr, append-nil,
}
use dis_kverbs.Kernel.{CircBuf}
use dis_kverbs.Memory.{Heap}
use dis_kverbs.Pd.{DisPd}
use dis_kverbs.Verbs.{
  done, WcOpcode, Iovec, DisMr, DisWqe, DisWq, page_size, dis_mr_max, dis_max_iovlen,
}
use dis_kverbs.Mr.{MrOut, Umem, dis_reg_user_mr}
use dis_kverbs.Mr.Lookup.{lookup_mr}
use dis_kverbs.Mr.Inv.{IsPd}
use dis_kverbs.Mr.Lifetime.{IsUmem, IsMapping, dis_reg_user_mr_lem}
use dis_kverbs.Post.{IbSge, IbWr, Mem, cells_of, post_one}
use dis_kverbs.Post.Spec.{
  sges_counted, sges_touched, AllIn, all_bytes, sge_bytes, pages_touched, region_offset,
}
use dis_kverbs.Post.Build.{IsWq, wq_used, wq_contents, Granted}
use dis_kverbs.Post.Correct.{post_one_lem}

-- Where byte `x` lies, counted from the start of the first pinned page.
abbrev pub pinned_at : Umem → ℕ → ℕ
pinned_at u x = get_or u.addresses (x / page_size) 0 + x % page_size

-- A request of one segment.
abbrev pub one_segment : ℕ → IbSge → IbWr
one_segment wr_id sge = record { wr_id = wr_id; num_sge = 1; sg_list = sge ∷ [] }

-- The memory that posting sees after a registration.
abbrev pub seen : MrOut → Mem
seen out = record { pd_of = λ qp. some out.pd; mrs = out.mrs }

mapped_bytes :
    (u : Umem) (va len : ℕ) (mr : DisMr) (sge : IbSge)
    → IsUmem u len
    → IsMapping u va len mr
    → va ≤ sge.addr
    → sge.addr + sge.length ≤ va + len
    → sge_bytes mr sge ≡ tabulate (λ j. pinned_at u (sge.addr - va + u.umem_offset + j)) sge.length
mapped_bytes u va len mr sge pinned m low high =
    rw (m.at_va, m.offset)
      (tabulate_congr _ _ sge.length (λ j lt.
        ap (λ a. a + (sge.addr - va + u.umem_offset + j) % page_size)
          (m.page_at ((sge.addr - va + u.umem_offset + j) / page_size)
            (omega (arith, pinned.holds_bytes)))))

-- Let a domain in order have a key left, and the pinned pages be as the kernel documents them. Then the
-- memory is registered, and a request of one segment that lies in it, under the domain's next key, is
-- posted to a queue with room, if its elements are at most 1024 and kmalloc grants an array where
-- more than four are needed: the queue gets one entry, whose first elements, as many as the
-- segment touches pages, name in order exactly the bytes of the pinned pages at the segment's place
-- in the memory.
pub reg-post :
    (c : CircBuf) (kmalloc : ℕ → Option (ℕ × List Iovec)) (pd : DisPd) (mrs : Heap DisMr)
    (len va : ℕ) (u : Umem) (opcode : WcOpcode) (wq : DisWq) (wr_id : ℕ) (sge : IbSge)
    → IsPd pd
    → pd.mr_c < dis_mr_max
    → IsUmem u len
    → IsWq wq
    → wq_used wq + 1 < wq.wqe_max
    → sge.lkey ≡ pd.mr_c
    → va ≤ sge.addr
    → sge.addr + sge.length ≤ va + len
    → sge.addr < 2 ^ 64
    → let x = sge.addr - va + u.umem_offset in
      let n = (x % page_size + sge.length) / page_size + 1 in
      n ≤ dis_max_iovlen
      → Granted kmalloc n
      → (out : MrOut) × (wqe : DisWqe) × (wq' : DisWq) × (dis_reg_user_mr pd mrs len va
            (record { mr_alloc = true; umem_get = some u; pages_alloc = true })
          ≡ some out)
        × (post_one c kmalloc (seen out) opcode wq (one_segment wr_id sge) ≡ some (done, wq'))
        × (wq_contents wq' ≡ wq_contents wq ++ wqe ∷ [])
        × IsWq wq'
        × (all_bytes (take (pages_touched (x % page_size) sge.length) (cells_of wqe.iov wqe))
            ≡ tabulate (λ j. pinned_at u (x + j)) sge.length)
reg-post c kmalloc pd mrs len va u opcode wq wr_id sge v left v' w room key low high word few
      granted =
    let (out, mr, registered, _, entered, m) = dis_reg_user_mr_lem pd mrs len va u v left v' in
    let x = sge.addr - va + u.umem_offset in
    let n = (x % page_size + sge.length) / page_size + 1 in
    let place : region_offset mr sge ≡ x = rw (m.at_va, m.offset) refl in
    let counted : sges_counted (mr ∷ []) (sge ∷ []) ≡ n = rw place (omega arith) in
    let touched : sges_touched (mr ∷ []) (sge ∷ []) ≡ pages_touched (x % page_size) sge.length =
      rw place (omega arith) in
    let live : AllIn out.mrs out.pd (mr ∷ []) (sge ∷ []) = (
      ap (lookup_mr out.mrs out.pd) key ∙ entered.named,
      m.region,
      record { starts = rw m.at_va low; ends = rw (m.at_va, m.all_bytes_of) high; word = word },
      tt,
    ) in
    let (wqe, wq', run, more, w', built) =
      post_one_lem c kmalloc (seen out) opcode out.pd wq (one_segment wr_id sge) (mr ∷ []) w room
        refl live (rw counted few) (subst (Granted kmalloc) (sym counted) granted) in
    (
      out,
      wqe,
      wq',
      registered,
      run,
      more,
      w',
      ap (λ k. all_bytes (take k (cells_of wqe.iov wqe))) (sym touched)
          ∙ built.named
          ∙ append-nil (sge_bytes mr sge)
          ∙ mapped_bytes u va len mr sge v' m low high,
    )
