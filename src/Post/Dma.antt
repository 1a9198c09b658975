-- ===== src/Post/Dma.antt =====
-- Posting a request whose segments lie in regions for DMA, which map memory one to one.
mod Tests
use dis_kverbs.Common.{
  ℕ, zero, suc, ◌+◌, ◌≤◌, ◌<◌, ◌≡◌, ◌^◌, refl, ap, ap₂, sym, subst, ◌∙◌, arith, true, List, [], ◌∷◌,
  ◌++◌, Option, some, length, length-set, length-take, min, take, take-set, set, get_or, map, leb,
  ltb, le→ltb, append_assoc, append-nil, false,
}
use dis_kverbs.Kernel.{CircBuf}
use dis_kverbs.Memory.{Heap}
use dis_kverbs.Pd.{DisPd}
use dis_kverbs.Verbs.{
  done, WcOpcode, Iovec, iov_static, DisMr, DisWqe, DisWq, zero_wqe, u32, dis_sge_per_wqe,
  dis_max_iovlen,
}
use dis_kverbs.Mr.Lookup.{lookup_mr, lookup_found}
use dis_kverbs.Post.{
  IbSge, IbWr, Mem, DisSgeMap, dma_map, prepend, Counted, counted, count_sges, put_dma, stored,
  choose_store, Fill, fill_sges, fill_wqe, init_wqe, used_sges, cells_of, fill_stored, map_counted,
  build_wqe, post_one,
}
use dis_kverbs.Post.Spec.{sges_len}
use dis_kverbs.Post.Build.{IsWq, wq_used, wq_contents}
use dis_kverbs.Post.Correct.{with_wqe, with_wqe-IsWq, contents-with_wqe, post_one_step}

-- Each segment names, by its key, a live region for DMA.
abbrev pub AllDma : Heap DisMr → DisPd → List IbSge → Type 0
AllDma mrs pd [] = Unit
AllDma mrs pd (sge ∷ sges) =
    ((mr : DisMr) × (lookup_mr mrs pd sge.lkey ≡ lookup_found mr) × (mr.is_dma ≡ true))
    × AllDma mrs pd sges

-- The element of a segment: its address as it stands, and its length.
abbrev pub element : IbSge → Iovec
element sge = record { iov_base = sge.addr; iov_len = sge.length }

-- The entry after the first loop, from segment `i` on.
with_dma : ℕ → List IbSge → DisWqe → DisWqe
with_dma i [] wqe = wqe
with_dma i (sge ∷ sges) wqe = with_dma (i + 1) sges (put_dma i sge wqe)

dma_maps : List IbSge → List DisSgeMap
dma_maps = map (λ (sge : IbSge). dma_map)

count_dma :
    (mrs : Heap DisMr) (pd : DisPd) (i : ℕ) {mr : DisMr} (sge : IbSge) (sges : List IbSge)
    (wqe : DisWqe)
    → lookup_mr mrs pd sge.lkey ≡ lookup_found mr
    → mr.is_dma ≡ true
    → count_sges mrs pd i (sge ∷ sges) wqe
      ≡ prepend dma_map (count_sges mrs pd (i + 1) sges (put_dma i sge wqe))
unfolding count_sges
count_dma mrs pd i sge sges wqe found dma = ground arith

count_sges_dma :
    (mrs : Heap DisMr) (pd : DisPd) (i : ℕ) (sges : List IbSge) (wqe : DisWqe)
    → AllDma mrs pd sges
    → count_sges mrs pd i sges wqe ≡ counted (with_dma i sges wqe) (dma_maps sges)
unfolding count_sges with_dma dma_maps
count_sges_dma mrs pd i [] wqe a = refl
count_sges_dma mrs pd i (sge ∷ sges) wqe ((mr, found, dma), a) =
    count_dma mrs pd i sge sges wqe found dma
    ∙ ap (prepend dma_map) (count_sges_dma mrs pd (i + 1) sges (put_dma i sge wqe) a)

-- What the first loop makes of an entry whose array has room.
record IsCounted (i : ℕ) (sges : List IbSge) (wqe wqe' : DisWqe) : Type 0 where
  elements :
      take (i + length sges) wqe'.page_map_static ≡ take i wqe.page_map_static ++ map element sges
  count : wqe'.iovlen ≡ wqe.iovlen + length sges
  bytes : wqe'.byte_len ≡ u32 (wqe.byte_len + sges_len sges)
  identity : wqe'.wr_id ≡ wqe.wr_id
  kind : wqe'.opcode ≡ wqe.opcode
  owner : wqe'.ibqp ≡ wqe.ibqp
  array : length wqe'.page_map_static ≡ length wqe.page_map_static

with_dma_lem :
    (i : ℕ) (sges : List IbSge) (wqe : DisWqe)
    → i + length sges ≤ length wqe.page_map_static
    → wqe.byte_len < 2 ^ 32
    → IsCounted i sges wqe (with_dma i sges wqe)
unfolding with_dma put_dma
with_dma_lem i [] wqe room small = record {
  elements = ap (λ n. take n wqe.page_map_static) (omega arith) ∙ sym (append-nil _);
  count = omega arith;
  bytes = omega arith;
  identity = refl;
  kind = refl;
  owner = refl;
  array = refl;
}
with_dma_lem i (sge ∷ sges) wqe room small =
    let cells = set wqe.page_map_static i (element sge) in
    let size = length-set wqe.page_map_static i (element sge) in
    let shift : i + suc (length sges) ≡ i + 1 + length sges = omega arith in
    let next : i + 1 ≡ suc i = omega arith in
    let rest = with_dma_lem (i + 1) sges (put_dma i sge wqe) (omega (arith, size)) (omega arith) in
    record {
      elements =
          ap (λ n. take n (with_dma (i + 1) sges (put_dma i sge wqe)).page_map_static) shift
          ∙ rest.elements
          ∙ ap (λ l. l ++ map element sges)
              (ap (λ n. take n cells) next
                ∙ take-set wqe.page_map_static i (element sge) (omega arith))
          ∙ append_assoc (take i wqe.page_map_static) (element sge ∷ []) (map element sges);
      count = omega (arith, rest.count);
      bytes = omega (arith, rest.bytes);
      identity = rest.identity;
      kind = rest.kind;
      owner = rest.owner;
      array = rest.array ∙ size;
    }

-- The second loop passes over segments for DMA.
fill_sges_dma : (sges : List IbSge) (f : Fill) → fill_sges (dma_maps sges) f ≡ some f
unfolding fill_sges dma_maps
fill_sges_dma [] f = refl
fill_sges_dma (sge ∷ sges) f = fill_sges_dma sges f

fill_wqe_dma :
    (sges : List IbSge) (wqe : DisWqe)
    → wqe.iov ≡ iov_static 0
    → fill_wqe (dma_maps sges) wqe ≡ some wqe
unfolding fill_wqe
fill_wqe_dma sges wqe at_start =
    rw
      (
        fill_sges_dma sges
            (record { cells = cells_of wqe.iov wqe; pos = 0; byte_len = wqe.byte_len }),
        fill_wqe,
        at_start,
      )
      refl

-- The entry that a request makes.
pub record IsDmaBuilt (opcode : WcOpcode) (wq : DisWq) (wr : IbWr) (wqe : DisWqe) : Type 0 where
  pub at_start : wqe.iov ≡ iov_static 0
  pub count : wqe.iovlen ≡ length (used_sges wr)
  pub elements : take wqe.iovlen wqe.page_map_static ≡ map element (used_sges wr)
  pub bytes : wqe.byte_len ≡ u32 (sges_len (used_sges wr))
  pub identity : wqe.wr_id ≡ u32 wr.wr_id
  pub kind : wqe.opcode ≡ opcode
  pub owner : wqe.ibqp ≡ wq.ibqp
  pub array : length wqe.page_map_static ≡ dis_sge_per_wqe

module _ (c : CircBuf) (kmalloc : ℕ → Option (ℕ × List Iovec)) (mem : Mem) where
  choose_few :
      (wqe : DisWqe)
      → wqe.iovlen ≤ dis_sge_per_wqe
      → choose_store kmalloc wqe ≡ stored (record wqe { iov = iov_static 0 })
  unfolding choose_store
  choose_few wqe few =
      let short : leb wqe.iovlen dis_sge_per_wqe ≡ true = ground arith in
      rw (le→ltb dis_max_iovlen wqe.iovlen (omega arith), short) refl

  build_dma :
      (opcode : WcOpcode) (pd : DisPd) (wq : DisWq) (wr : IbWr)
      → IsWq wq
      → AllDma mem.mrs pd (used_sges wr)
      → (wqe : DisWqe) × (build_wqe c kmalloc mem opcode pd wq wr ≡ some (done, wqe))
        × IsDmaBuilt opcode wq wr wqe
  unfolding build_wqe map_counted fill_stored init_wqe
  build_dma opcode pd wq wr v a =
      let slot = get_or wq.buf wq.head zero_wqe in
      let sges = used_sges wr in
      let few : length sges ≤ dis_sge_per_wqe =
        omega (arith, length-take (min wr.num_sge dis_sge_per_wqe) wr.sg_list) in
      let array = v.arrays wq.head v.ring.head_in in
      let start = init_wqe opcode wq wr slot in
      let k = with_dma_lem 0 sges start (omega (arith, array)) (omega arith) in
      let wqe : DisWqe = record (with_dma 0 sges start) { iov = iov_static 0 } in
      let counted_few : (with_dma 0 sges start).iovlen ≤ dis_sge_per_wqe = omega (arith, k.count) in
      (
        wqe,
        ap (map_counted c kmalloc mem) (count_sges_dma mem.mrs pd 0 sges start a)
            ∙ ap (fill_stored c kmalloc mem (dma_maps sges)) (choose_few _ counted_few)
            ∙ rw (fill_wqe_dma sges wqe refl, fill_stored) refl,
        record {
          at_start = refl;
          count = omega (arith, k.count);
          elements = ap (λ n. take n wqe.page_map_static) (omega (arith, k.count)) ∙ k.elements;
          bytes = omega (arith, k.bytes);
          identity = k.identity;
          kind = k.kind;
          owner = k.owner;
          array = k.array ∙ array;
        },
      )

  -- Let the queue be in order and have room, its protection domain be there, and each of the first four
  -- segments of the request name a live region for DMA. Then posting returns 0, whatever kmalloc has,
  -- and appends one entry to the queue, which stays in order: the entry has one element for each
  -- segment, with the segment's address and length, in order; its length is the sum of theirs modulo
  -- 2^32, its id the request's modulo 2^32, its kind the verb's.
  pub post_one_dma :
      (opcode : WcOpcode) (pd : DisPd) (wq : DisWq) (wr : IbWr)
      → IsWq wq
      → wq_used wq + 1 < wq.wqe_max
      → mem.pd_of wq.ibqp ≡ some pd
      → AllDma mem.mrs pd (used_sges wr)
      → (wqe : DisWqe) × (wq' : DisWq) × (post_one c kmalloc mem opcode wq wr ≡ some (done, wq'))
        × (wq_contents wq' ≡ wq_contents wq ++ wqe ∷ [])
        × IsWq wq'
        × IsDmaBuilt opcode wq wr wqe
  post_one_dma opcode pd wq wr v room found a =
      let (wqe, run, built) = build_dma opcode pd wq wr v a in
      (
        wqe,
        with_wqe wq wqe,
        post_one_step c kmalloc mem opcode pd wq wr wqe v found room run,
        contents-with_wqe wq wqe v room,
        with_wqe-IsWq wq wqe v built.array,
        built,
      )
