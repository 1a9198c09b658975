-- ===== src/Post/Array.antt =====
-- Posting keeps the length of the array that stands in a slot.
use dis_kverbs.Common.{
  ℕ, zero, suc, ◌+◌, ◌-◌, ◌≡◌, inl, inr, refl, ap, sym, ◌∙◌, true, false, Bool-cases, List, [], ◌∷◌,
  Option, some, Option-cases, ltb, leb, length, length-set, get_or, get_elem?, AllSome,
  AllSome-weaken, AllSome-elim,
}
use dis_kverbs.Kernel.{CircBuf}
use dis_kverbs.Memory.{Heap}
use dis_kverbs.Pd.{DisPd}
use dis_kverbs.Verbs.{
  Ret, WcOpcode, Iovec, IovPtr, iov_null, iov_static, iov_dynamic, DisMr, DisWqe, DisWq, zero_wqe,
  dis_sge_per_wqe, dis_max_iovlen,
}
use dis_kverbs.Post.Filled.{cells_of_byte_len}
use dis_kverbs.Mr.Lookup.{Lookup, lookup_mr, lookup_fault, lookup_null, lookup_found}
use dis_kverbs.Post.{
  IbSge, IbWr, Mem, DisSgeMap, dma_map, page_map, Counted, count_fault, count_refused, counted,
  prepend, count_sges, map_sge, put_dma, put_pages, Store, no_store, stored, choose_store, Fill,
  chunk, put_chunk, fill_pages, fill_map, fill_sges, fill_wqe, cells_of, with_cells, init_wqe,
  used_sges, fill_stored, map_counted, build_wqe,
}

abbrev SameRoom : Fill → Fill → Type 0
SameRoom f g = length g.cells ≡ length f.cells

fill_pages_kept :
    (fuel : ℕ) (pages : List Iovec) (page base_offset sge_len : ℕ) (f : Fill)
    → AllSome (SameRoom f) (fill_pages fuel pages page base_offset sge_len f)
unfolding fill_pages put_chunk
fill_pages_kept zero pages page base_offset sge_len f = tt
fill_pages_kept (suc fuel) pages page base_offset sge_len f = elim (Bool-cases (ltb 0 sge_len)) [
  | inr none_left ↦ rw (none_left, fill_pages) refl
  | inl some_left ↦ elim (Option-cases (get_elem? pages page)) [
    | inl beyond ↦ rw (some_left, fill_pages, beyond) tt
    | inr (p, there) ↦ elim (Bool-cases (ltb f.pos (length f.cells))) [
      | inr full ↦ rw (some_left, fill_pages, there, full) tt
      | inl room ↦
          let next = put_chunk p base_offset sge_len f in
          let left = sge_len - chunk base_offset sge_len in
          rw (some_left, fill_pages, there, room)
            (AllSome-weaken (SameRoom next) (SameRoom f)
              (fill_pages fuel pages (page + 1) 0 left next)
              (λ g same. same ∙ length-set f.cells f.pos _)
              (fill_pages_kept fuel pages (page + 1) 0 left next))
    ]
  ]
]

fill_sges_kept : (ms : List DisSgeMap) (f : Fill) → AllSome (SameRoom f) (fill_sges ms f)
unfolding fill_sges fill_map
fill_sges_kept [] f = refl
fill_sges_kept (dma_map ∷ ms) f = fill_sges_kept ms f
fill_sges_kept (page_map m ∷ ms) f = elim (Option-cases (fill_map m f)) [
  | inl fault ↦ rw (fault, fill_sges) tt
  | inr (g, run) ↦
      let same =
        AllSome-elim (SameRoom f)
          (fill_pages_kept (suc m.sge_len) m.mr_pages m.page_offset m.base_offset m.sge_len f)
          run in
      rw (run, fill_sges)
        (AllSome-weaken (SameRoom g) (SameRoom f) (fill_sges ms g) (λ h kept. kept ∙ same)
          (fill_sges_kept ms g))
]

abbrev pub HasLen : ℕ → DisWqe → Type 0
HasLen n w = length w.page_map_static ≡ n

with_cells_kept :
    (n : ℕ) (iov : IovPtr) (cells : List Iovec) (wqe : DisWqe)
    → length cells ≡ length (cells_of iov wqe)
    → HasLen n wqe
    → HasLen n (with_cells iov cells wqe)
with_cells_kept n iov_null cells wqe same at = at
with_cells_kept n (iov_static i) cells wqe same at = same ∙ at
with_cells_kept n iov_dynamic cells wqe same at = at

fill_wqe_kept :
    (n : ℕ) (ms : List DisSgeMap) (w : DisWqe) → HasLen n w → AllSome (HasLen n) (fill_wqe ms w)
unfolding fill_wqe
fill_wqe_kept n ms w at =
    let f : Fill = record { cells = cells_of w.iov w; pos = 0; byte_len = w.byte_len } in
    elim (Option-cases (fill_sges ms f)) [
      | inl fault ↦ rw (fault, fill_wqe) tt
      | inr (g, run) ↦
          rw (run, fill_wqe)
            (with_cells_kept n w.iov g.cells (record w { byte_len = g.byte_len })
              (AllSome-elim (SameRoom f) (fill_sges_kept ms f) run
                ∙ ap length (sym (cells_of_byte_len w.iov w g.byte_len)))
              at)
    ]

abbrev pub CountedLen : ℕ → Counted → Type 0
CountedLen n count_fault = Unit
CountedLen n (count_refused w) = HasLen n w
CountedLen n (counted w ms) = HasLen n w

abbrev StoredLen : ℕ → Store → Type 0
StoredLen n (no_store w) = HasLen n w
StoredLen n (stored w) = HasLen n w

abbrev BuiltLen : ℕ → Option (Ret × DisWqe) → Type 0
BuiltLen n = AllSome (λ (b : Ret × DisWqe). HasLen n b.1)

prepend-CountedLen :
    (n : ℕ) (m : DisSgeMap) (k : Counted) → CountedLen n k → CountedLen n (prepend m k)
prepend-CountedLen n m count_fault at = tt
prepend-CountedLen n m (count_refused w) at = at
prepend-CountedLen n m (counted w ms) at = at

-- A segment, whether its region is there or not, and for DMA or not.
found_or_not :
    (n : ℕ) (wqe : DisWqe) (l : Lookup) (dma : Counted) (pages : DisMr → Counted)
    → HasLen n wqe
    → CountedLen n dma
    → ((mr : DisMr) → CountedLen n (pages mr))
    → CountedLen n (elim l [
      | lookup_fault ↦ count_fault
      | lookup_null ↦ count_refused wqe
      | lookup_found mr ↦ elim mr.is_dma [ true ↦ dma | false ↦ pages mr ]
    ])
found_or_not n wqe lookup_fault dma pages here d g = tt
found_or_not n wqe lookup_null dma pages here d g = here
found_or_not n wqe (lookup_found mr) dma pages here d g = elim (Bool-cases mr.is_dma) [
  | inl is ↦ rw is d
  | inr not ↦ rw not (g mr)
]

pub count_sges-CountedLen :
    (n : ℕ) (mrs : Heap DisMr) (pd : DisPd) (i : ℕ) (sges : List IbSge) (wqe : DisWqe)
    → HasLen n wqe
    → CountedLen n (count_sges mrs pd i sges wqe)
unfolding count_sges put_dma put_pages
count_sges-CountedLen n mrs pd i [] wqe at = at
count_sges-CountedLen n mrs pd i (sge ∷ sges) wqe at =
    found_or_not n wqe (lookup_mr mrs pd sge.lkey)
      (prepend dma_map (count_sges mrs pd (i + 1) sges (put_dma i sge wqe)))
      (λ mr.
        prepend (page_map (map_sge mr sge))
          (count_sges mrs pd (i + 1) sges (put_pages (map_sge mr sge) wqe)))
      at
      (prepend-CountedLen n dma_map _ (
        count_sges-CountedLen n mrs pd (i + 1) sges (put_dma i sge wqe)
          (length-set wqe.page_map_static i _ ∙ at)))
      (λ mr.
        prepend-CountedLen n (page_map (map_sge mr sge)) _
          (count_sges-CountedLen n mrs pd (i + 1) sges (put_pages (map_sge mr sge) wqe) at))

choose_store-StoredLen :
    (n : ℕ) (kmalloc : ℕ → Option (ℕ × List Iovec)) (wqe : DisWqe)
    → HasLen n wqe
    → StoredLen n (choose_store kmalloc wqe)
unfolding choose_store
choose_store-StoredLen n kmalloc wqe at = elim (Bool-cases (ltb dis_max_iovlen wqe.iovlen)) [
  | inl long ↦ rw long at
  | inr short ↦ elim (Bool-cases (leb wqe.iovlen dis_sge_per_wqe)) [
    | inl few ↦ rw (short, few) at
    | inr many ↦ elim (Option-cases (kmalloc wqe.iovlen)) [
      | inl no_memory ↦ rw (short, many, choose_store, no_memory) at
      | inr ((a, cells), granted) ↦ rw (short, many, choose_store, granted) at
    ]
  ]
]

module _ (c : CircBuf) (kmalloc : ℕ → Option (ℕ × List Iovec)) (mem : Mem) where
  fill_stored-BuiltLen :
      (n : ℕ) (ms : List DisSgeMap) (s : Store)
      → StoredLen n s
      → BuiltLen n (fill_stored c kmalloc mem ms s)
  unfolding fill_stored
  fill_stored-BuiltLen n ms (no_store w) at = at
  fill_stored-BuiltLen n ms (stored w) at = elim (Option-cases (fill_wqe ms w)) [
    | inl fault ↦ rw (fault, fill_stored) tt
    | inr (w', run) ↦ rw (run, fill_stored) (AllSome-elim (HasLen n) (fill_wqe_kept n ms w at) run)
  ]

  map_counted-BuiltLen :
      (n : ℕ) (k : Counted) → CountedLen n k → BuiltLen n (map_counted c kmalloc mem k)
  unfolding map_counted
  map_counted-BuiltLen n count_fault at = tt
  map_counted-BuiltLen n (count_refused w) at = at
  map_counted-BuiltLen n (counted w ms) at =
      fill_stored-BuiltLen n ms (choose_store kmalloc w) (choose_store-StoredLen n kmalloc w at)

  -- The slot's own array keeps its length, whether the request is refused or not.
  pub build_wqe-array :
      (opcode : WcOpcode) (pd : DisPd) (wq : DisWq) (wr : IbWr) {ret : Ret} {wqe : DisWqe}
      → build_wqe c kmalloc mem opcode pd wq wr ≡ some (ret, wqe)
      → length wqe.page_map_static ≡ length (get_or wq.buf wq.head zero_wqe).page_map_static
  unfolding build_wqe init_wqe
  build_wqe-array opcode pd wq wr run =
      let slot = get_or wq.buf wq.head zero_wqe in
      let n = length slot.page_map_static in
      AllSome-elim (λ (b : Ret × DisWqe). HasLen n b.1)
        (map_counted-BuiltLen n _
          (count_sges-CountedLen n mem.mrs pd 0 (used_sges wr) (init_wqe opcode wq wr slot) refl))
        run
