-- ===== src/Post/Stale.antt =====
-- The address of an entry's own array, page_map_dynamic, which posting sets only where it allocates one.
use dis_kverbs.Common.{
  ℕ, ◌+◌, ◌≤◌, ◌<◌, ◌≡◌, ◌⊎◌, inl, inr, refl, subst, arith, true, false, Bool-cases, List, [], ◌∷◌,
  Option, none, some, Option-cases, ltb, leb, get_or,
}
use dis_kverbs.Kernel.{CircBuf}
use dis_kverbs.Memory.{Heap}
use dis_kverbs.Pd.{DisPd}
use dis_kverbs.Verbs.{
  Ret, done, fail, WcOpcode, Iovec, IovPtr, iov_null, iov_static, iov_dynamic, DisMr, DisWqe, DisWq,
  zero_wqe, dis_sge_per_wqe, dis_max_iovlen,
}
use dis_kverbs.Mr.Lookup.{Lookup, lookup_mr, lookup_fault, lookup_null, lookup_found}
use dis_kverbs.Post.{
  IbSge, IbWr, Mem, DisSgeMap, dma_map, page_map, Counted, count_fault, count_refused, counted,
  prepend, count_sges, map_sge, put_dma, put_pages, Store, no_store, stored, choose_store, Fill,
  fill_sges, fill_wqe, cells_of, with_cells, init_wqe, used_sges, fill_stored, map_counted,
  build_wqe,
}

-- The address is `p` after the first loop.
abbrev CountedAt : ℕ → Counted → Type 0
CountedAt p count_fault = Unit
CountedAt p (count_refused w) = w.page_map_dynamic ≡ p
CountedAt p (counted w ms) = w.page_map_dynamic ≡ p

-- The address is `p`, or the entry has more elements than stand in itself.
abbrev IsAt : ℕ → DisWqe → Type 0
IsAt p w = (w.page_map_dynamic ≡ p) ⊎ (dis_sge_per_wqe < w.iovlen)

abbrev StoredAt : ℕ → Store → Type 0
StoredAt p (no_store w) = Unit
StoredAt p (stored w) = IsAt p w

abbrev BuiltAt : ℕ → Option (Ret × DisWqe) → Type 0
BuiltAt p none = Unit
BuiltAt p (some (fail n, w)) = Unit
BuiltAt p (some (done, w)) = IsAt p w

prepend-CountedAt :
    (p : ℕ) (m : DisSgeMap) (k : Counted) → CountedAt p k → CountedAt p (prepend m k)
prepend-CountedAt p m count_fault at = tt
prepend-CountedAt p m (count_refused w) at = at
prepend-CountedAt p m (counted w ms) at = at

-- A segment, whether its region is there or not, and for DMA or not.
found_or_not :
    (p : ℕ) (wqe : DisWqe) (l : Lookup) (dma : Counted) (pages : DisMr → Counted)
    → wqe.page_map_dynamic ≡ p
    → CountedAt p dma
    → ((mr : DisMr) → CountedAt p (pages mr))
    → CountedAt p (elim l [
      | lookup_fault ↦ count_fault
      | lookup_null ↦ count_refused wqe
      | lookup_found mr ↦ elim mr.is_dma [ true ↦ dma | false ↦ pages mr ]
    ])
found_or_not p wqe lookup_fault dma pages here d g = tt
found_or_not p wqe lookup_null dma pages here d g = here
found_or_not p wqe (lookup_found mr) dma pages here d g = elim (Bool-cases mr.is_dma) [
  | inl is ↦ rw is d
  | inr not ↦ rw not (g mr)
]

count_sges-CountedAt :
    (mrs : Heap DisMr) (pd : DisPd) (i : ℕ) (sges : List IbSge) (wqe : DisWqe)
    → CountedAt wqe.page_map_dynamic (count_sges mrs pd i sges wqe)
unfolding count_sges put_dma put_pages
count_sges-CountedAt mrs pd i [] wqe = refl
count_sges-CountedAt mrs pd i (sge ∷ sges) wqe =
    found_or_not wqe.page_map_dynamic wqe (lookup_mr mrs pd sge.lkey)
      (prepend dma_map (count_sges mrs pd (i + 1) sges (put_dma i sge wqe)))
      (λ mr.
        prepend (page_map (map_sge mr sge))
          (count_sges mrs pd (i + 1) sges (put_pages (map_sge mr sge) wqe)))
      refl
      (prepend-CountedAt wqe.page_map_dynamic dma_map _
        (count_sges-CountedAt mrs pd (i + 1) sges (put_dma i sge wqe)))
      (λ mr.
        prepend-CountedAt wqe.page_map_dynamic (page_map (map_sge mr sge)) _
          (count_sges-CountedAt mrs pd (i + 1) sges (put_pages (map_sge mr sge) wqe)))

choose_store-StoredAt :
    (kmalloc : ℕ → Option (ℕ × List Iovec)) (wqe : DisWqe)
    → StoredAt wqe.page_map_dynamic (choose_store kmalloc wqe)
unfolding choose_store
choose_store-StoredAt kmalloc wqe = elim (Bool-cases (ltb dis_max_iovlen wqe.iovlen)) [
  | inl long ↦ rw long tt
  | inr short ↦ elim (Bool-cases (leb wqe.iovlen dis_sge_per_wqe)) [
    | inl few ↦ rw (short, few) (inl refl)
    | inr many ↦
        let more : dis_sge_per_wqe < wqe.iovlen = ground arith in
        elim (Option-cases (kmalloc wqe.iovlen)) [
          | inl no_memory ↦ rw (short, many, choose_store, no_memory) tt
          | inr ((a, cells), granted) ↦ rw (short, many, choose_store, granted) (inr more)
        ]
  ]
]

with_cells-IsAt :
    {p : ℕ} (iov : IovPtr) (cells : List Iovec) (wqe : DisWqe)
    → IsAt p wqe
    → IsAt p (with_cells iov cells wqe)
with_cells-IsAt iov_null cells wqe at = at
with_cells-IsAt (iov_static i) cells wqe at = at
with_cells-IsAt iov_dynamic cells wqe at = at

module _ (c : CircBuf) (kmalloc : ℕ → Option (ℕ × List Iovec)) (mem : Mem) where
  fill_stored-BuiltAt :
      (p : ℕ) (ms : List DisSgeMap) (s : Store)
      → StoredAt p s
      → BuiltAt p (fill_stored c kmalloc mem ms s)
  unfolding fill_stored fill_wqe
  fill_stored-BuiltAt p ms (no_store w) at = tt
  fill_stored-BuiltAt p ms (stored w) at =
      filled (fill_sges ms (record { cells = cells_of w.iov w; pos = 0; byte_len = w.byte_len }))
        refl
    where
      filled :
          (f : Option Fill)
          → fill_sges ms (record { cells = cells_of w.iov w; pos = 0; byte_len = w.byte_len }) ≡ f
          → BuiltAt p (fill_stored c kmalloc mem ms (stored w))
      filled none run = rw (run, fill_stored, fill_wqe) tt
      filled (some f) run =
          rw (run, fill_stored, fill_wqe)
            (with_cells-IsAt w.iov f.cells (record w { byte_len = f.byte_len }) at)

  map_counted-BuiltAt :
      (p : ℕ) (k : Counted) → CountedAt p k → BuiltAt p (map_counted c kmalloc mem k)
  unfolding map_counted
  map_counted-BuiltAt p count_fault at = tt
  map_counted-BuiltAt p (count_refused w) at = tt
  map_counted-BuiltAt p (counted w ms) at =
      fill_stored-BuiltAt p ms (choose_store kmalloc w)
        (subst (λ q. StoredAt q (choose_store kmalloc w)) at (choose_store-StoredAt kmalloc w))

  -- An entry with no more elements than stand in itself keeps the slot's address.
  pub build_wqe-stale :
      (opcode : WcOpcode) (pd : DisPd) (wq : DisWq) (wr : IbWr) {wqe : DisWqe}
      → build_wqe c kmalloc mem opcode pd wq wr ≡ some (done, wqe)
      → wqe.iovlen ≤ dis_sge_per_wqe
      → wqe.page_map_dynamic ≡ (get_or wq.buf wq.head zero_wqe).page_map_dynamic
  unfolding build_wqe init_wqe
  build_wqe-stale opcode pd wq wr run few =
      let slot = get_or wq.buf wq.head zero_wqe in
      let at =
        map_counted-BuiltAt slot.page_map_dynamic _
          (count_sges-CountedAt mem.mrs pd 0 (used_sges wr) (init_wqe opcode wq wr slot)) in
      elim (subst (BuiltAt slot.page_map_dynamic) run at) [
        | inl same ↦ same
        | inr more ↦ absurd (omega arith)
      ]
