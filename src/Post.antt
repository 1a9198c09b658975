-- ===== src/Post.antt =====
-- dis_qp_post_one_sqe and dis_qp_post_one_rqe of driver/dis_qp.c: a work request becomes an entry of
-- a work queue, its segments mapped to the pages of their memory regions. The two functions differ
-- in the opcode alone.
--
-- `none` is undefined behaviour: a read through NULL or a freed object, an access out of an array.
pub mod Spec
pub mod Loop
pub mod Count
pub mod Filled
pub mod Build
pub mod Correct
pub mod Dma
pub mod Refused
pub mod TooLong
pub mod Array
pub mod Stale
pub mod Interleave
pub mod Total
pub mod Shape
pub mod Tests
use dis_kverbs.Common.{
  ℕ, zero, suc, ◌+◌, ◌-◌, ◌*◌, ◌/◌, ◌<◌, min, Bool, true, false, Option, none, some, List, [], ◌∷◌,
  ltb, leb, if◌then◌else◌, length, get_elem?, get_or, set, take,
}
use dis_kverbs.Kernel.{CircBuf}
use dis_kverbs.Memory.{Heap, load}
use dis_kverbs.Verbs.{
  Ret, done, fail, WcOpcode, wc_send, wc_recv, Iovec, DisMr, IovPtr, iov_null, iov_static,
  iov_dynamic, DisWqe, DisWq, zero_wqe, page_size, dis_sge_per_wqe, dis_max_iovlen, u32, u64, sub64,
  circ_next,
}
use dis_kverbs.Pd.{DisPd}
use dis_kverbs.Mr.Lookup.{Lookup, lookup_fault, lookup_null, lookup_found, lookup_mr}

-- `struct ib_sge`
pub record IbSge : Type 0 where
  pub addr : ℕ
  pub length : ℕ
  pub lkey : ℕ

-- `struct ib_send_wr` and `struct ib_recv_wr`, the fields that the driver reads.
pub record IbWr : Type 0 where
  pub wr_id : ℕ
  pub num_sge : ℕ
  pub sg_list : List IbSge

-- `struct dis_sge_map` of a segment in a region that is not for DMA; the pointer `mr_pages` is the
-- region's array with the index `page_offset`.
pub record PageMap : Type 0 where
  pub mr_pages : List Iovec
  pub page_offset : ℕ
  pub base_offset : ℕ
  pub sge_len : ℕ
  pub page_count : ℕ

-- `struct dis_sge_map`: with `is_dma` set, its other fields are not used.
pub data DisSgeMap : Type 0 where
  dma_map : DisSgeMap
  page_map : PageMap → DisSgeMap

-- What a verb reads through pointers: the protection domain of a queue pair, and the regions.
pub record Mem : Type 0 where
  pub pd_of : ℕ → Option DisPd
  pub mrs : Heap DisMr

-- The pages that a segment spans.
pub map_sge : DisMr → IbSge → PageMap
map_sge mr sge =
    let base = u64 (sub64 sge.addr mr.mr_va + mr.mr_va_offset) in
    let page_offset = base / page_size in
    let base_offset = base - page_offset * page_size in
    record {
      mr_pages = mr.pages;
      page_offset = page_offset;
      base_offset = base_offset;
      sge_len = sge.length;
      page_count = u64 (sge.length + base_offset) / page_size + 1;
    }

-- The entry after segment `i` of a region for DMA, and after one that spans pages.
pub put_dma : ℕ → IbSge → DisWqe → DisWqe
put_dma i sge wqe = record wqe {
  page_map_static =
      set wqe.page_map_static i (record { iov_base = sge.addr; iov_len = sge.length });
  byte_len = u32 (wqe.byte_len + sge.length);
  iov = iov_static i;
  iovlen = wqe.iovlen + 1;
}

pub put_pages : PageMap → DisWqe → DisWqe
put_pages m wqe = record wqe { iovlen = wqe.iovlen + m.page_count }

pub data Counted : Type 0 where
  count_fault : Counted
  count_refused : DisWqe → Counted
  counted : DisWqe → List DisSgeMap → Counted

abbrev pub prepend : DisSgeMap → Counted → Counted
prepend m count_fault = count_fault
prepend m (count_refused wqe) = count_refused wqe
prepend m (counted wqe ms) = counted wqe (m ∷ ms)

-- The first loop over the segments, from segment `i` on.
pub count_sges : Heap DisMr → DisPd → ℕ → List IbSge → DisWqe → Counted
count_sges mrs pd i [] wqe = counted wqe []
count_sges mrs pd i (sge ∷ sges) wqe = elim (lookup_mr mrs pd sge.lkey) [
  | lookup_fault ↦ count_fault
  | lookup_null ↦ count_refused wqe
  | lookup_found mr ↦ elim mr.is_dma [
    | true ↦ prepend dma_map (count_sges mrs pd (i + 1) sges (put_dma i sge wqe))
    | false ↦
        prepend (page_map (map_sge mr sge))
          (count_sges mrs pd (i + 1) sges (put_pages (map_sge mr sge) wqe))
  ]
]

pub data Store : Type 0 where
  no_store : DisWqe → Store
  stored : DisWqe → Store

-- The array that the second loop fills. `kmalloc n` is memory for `n` elements: its address and
-- what stands in it, or `none`.
pub choose_store : (ℕ → Option (ℕ × List Iovec)) → DisWqe → Store
choose_store kmalloc wqe =
    if ltb dis_max_iovlen wqe.iovlen
    then no_store wqe
    else if leb wqe.iovlen dis_sge_per_wqe
    then stored (record wqe { iov = iov_static 0 })
    else elim (kmalloc wqe.iovlen) [
      | none ↦ no_store (record wqe { page_map_dynamic = 0; dynamic_cells = [] })
      | some (addr, cells) ↦
          stored (record wqe { page_map_dynamic = addr; dynamic_cells = cells; iov = iov_dynamic })
    ]

-- The cursor of the second loop: the array, the index `sge_page` and `wqe->byte_len`.
pub record Fill : Type 0 where
  pub cells : List Iovec
  pub pos : ℕ
  pub byte_len : ℕ

pub chunk : ℕ → ℕ → ℕ
chunk base_offset sge_len = min sge_len (page_size - base_offset)

pub put_chunk : Iovec → ℕ → ℕ → Fill → Fill
put_chunk page base_offset sge_len f = record {
  cells =
      set f.cells f.pos
        (record { iov_base = page.iov_base + base_offset; iov_len = chunk base_offset sge_len });
  pos = f.pos + 1;
  byte_len = u32 (f.byte_len + chunk base_offset sge_len);
}

-- `while (sge->sge_len > 0)`, with the page index, the offset and the length left. Each round takes
-- a byte at least, so the fuel `suc sge_len` is enough.
pub fill_pages : ℕ → List Iovec → ℕ → ℕ → ℕ → Fill → Option Fill
fill_pages zero pages page base_offset sge_len f = none
fill_pages (suc fuel) pages page base_offset sge_len f = elim (ltb 0 sge_len) [
  | false ↦ some f
  | true ↦ elim (get_elem? pages page) [
    | none ↦ none
    | some mr_page ↦ elim (ltb f.pos (length f.cells)) [
      | false ↦ none
      | true ↦
          fill_pages fuel pages (page + 1) 0 (sge_len - chunk base_offset sge_len)
            (put_chunk mr_page base_offset sge_len f)
    ]
  ]
]

-- The second loop's body for a segment that is not for DMA.
pub fill_map : PageMap → Fill → Option Fill
fill_map m f = fill_pages (suc m.sge_len) m.mr_pages m.page_offset m.base_offset m.sge_len f

-- The second loop over the segments.
pub fill_sges : List DisSgeMap → Fill → Option Fill
fill_sges [] f = some f
fill_sges (dma_map ∷ ms) f = fill_sges ms f
fill_sges (page_map m ∷ ms) f = elim (fill_map m f) [ none ↦ none | some f' ↦ fill_sges ms f' ]

abbrev pub cells_of : IovPtr → DisWqe → List Iovec
cells_of iov_null wqe = []
cells_of (iov_static _) wqe = wqe.page_map_static
cells_of iov_dynamic wqe = wqe.dynamic_cells

abbrev pub with_cells : IovPtr → List Iovec → DisWqe → DisWqe
with_cells iov_null cells wqe = wqe
with_cells (iov_static _) cells wqe = record wqe { page_map_static = cells }
with_cells iov_dynamic cells wqe = record wqe { dynamic_cells = cells }

pub fill_wqe : List DisSgeMap → DisWqe → Option DisWqe
fill_wqe ms wqe =
    elim (fill_sges ms
      (record { cells = cells_of wqe.iov wqe; pos = 0; byte_len = wqe.byte_len })) [
        | none ↦ none
        | some f ↦ some (with_cells wqe.iov f.cells (record wqe { byte_len = f.byte_len }))
      ]

-- The attributes that are set before the segments are read.
pub init_wqe : WcOpcode → DisWq → IbWr → DisWqe → DisWqe
init_wqe opcode wq wr wqe = record wqe {
  opcode = opcode;
  sci_msq = wq.sci_msq;
  byte_len = 0;
  ibqp = wq.ibqp;
  wr_id = u32 wr.wr_id;
  iovlen = 0;
}

-- The segments that are read.
abbrev pub used_sges : IbWr → List IbSge
used_sges wr = take (min wr.num_sge dis_sge_per_wqe) wr.sg_list

module _ (c : CircBuf) (kmalloc : ℕ → Option (ℕ × List Iovec)) (mem : Mem) where
  fill_stored : List DisSgeMap → Store → Option (Ret × DisWqe)
  fill_stored ms (no_store wqe) = some (fail 42, wqe)
  fill_stored ms (stored wqe) = elim (fill_wqe ms wqe) [
    | none ↦ none
    | some wqe' ↦ some (done, wqe')
  ]

  map_counted : Counted → Option (Ret × DisWqe)
  map_counted count_fault = none
  map_counted (count_refused wqe) = some (fail 42, wqe)
  map_counted (counted wqe ms) = fill_stored ms (choose_store kmalloc wqe)

  -- The slot that the head points at, made an entry for the request.
  pub build_wqe : WcOpcode → DisPd → DisWq → IbWr → Option (Ret × DisWqe)
  build_wqe opcode pd wq wr = map_counted (
      count_sges mem.mrs pd 0 (used_sges wr)
        (init_wqe opcode wq wr (get_or wq.buf wq.head zero_wqe)))

  -- The slot is written in place, also where the request is refused; the head moves on success.
  abbrev commit : DisWq → Option (Ret × DisWqe) → Option (Ret × DisWq)
  commit wq none = none
  commit wq (some (done, wqe)) =
      some (done, record wq { buf = set wq.buf wq.head wqe; head = circ_next wq.head wq.wqe_max })
  commit wq (some (fail n, wqe)) = some (fail n, record wq { buf = set wq.buf wq.head wqe })

  pub post_one : WcOpcode → DisWq → IbWr → Option (Ret × DisWq)
  post_one opcode wq wr = elim (mem.pd_of wq.ibqp) [
    | none ↦ none
    | some pd ↦
        if ltb (c.circ_space wq.head wq.tail wq.wqe_max) 1
        then some (fail 42, wq)
        else commit wq (build_wqe opcode pd wq wr)
  ]

  unfoldable pub dis_qp_post_one_sqe : DisWq → IbWr → Option (Ret × DisWq)
  dis_qp_post_one_sqe wq wr = post_one wc_send wq wr

  unfoldable pub dis_qp_post_one_rqe : DisWq → IbWr → Option (Ret × DisWq)
  dis_qp_post_one_rqe wq wr = post_one wc_recv wq wr
