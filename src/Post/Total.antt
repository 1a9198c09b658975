-- ===== src/Post/Total.antt =====
-- Posting returns, whatever regions the request's keys name, as long as its segments lie in them.
use dis_kverbs.Common.{
  ℕ, ◌+◌, ◌≤◌, ◌<◌, ◌^◌, ◌≡◌, ◌⊎◌, inl, inr, refl, arith, ◌∙◌, true, Bool-cases, List, [], ◌∷◌,
  Option, none, some, Option-cases, ltb, leb, length, get_or, Returns, AllSome, AllSome-elim,
}
use dis_kverbs.Kernel.{CircBuf}
use dis_kverbs.Memory.{Heap}
use dis_kverbs.Pd.{DisPd}
use dis_kverbs.Verbs.{
  Ret, done, fail, WcOpcode, Iovec, DisMr, DisWqe, DisWq, zero_wqe, dis_sge_per_wqe, dis_max_iovlen,
}
use dis_kverbs.Mr.Lookup.{lookup_mr, lookup_null, lookup_found}
use dis_kverbs.Post.{
  IbSge, IbWr, Mem, DisSgeMap, dma_map, page_map, Counted, count_fault, count_refused, counted,
  prepend, count_sges, map_sge, put_dma, put_pages, Store, no_store, stored, choose_store, Fill,
  fill_sges, fill_wqe, cells_of, with_cells, init_wqe, used_sges, fill_stored, map_counted,
  build_wqe, commit, post_one,
}
use dis_kverbs.Post.Array.{CountedLen, count_sges-CountedLen}
use dis_kverbs.Post.Build.{IsWq}
use dis_kverbs.Post.Count.{map_sge_lem, sge_bounds, fill_map_lem, fill_sges_step}
use dis_kverbs.Post.Refused.{post_one_open, post_one_full}
use dis_kverbs.Post.Spec.{IsRegion, InRegion, sge_touched}

-- The segment's key names nothing, or a live region: one for DMA, or one that the segment lies in.
abbrev pub IsKnown : Heap DisMr → DisPd → IbSge → Type 0
IsKnown mrs pd sge =
    (lookup_mr mrs pd sge.lkey ≡ lookup_null)
    ⊎ ((mr : DisMr) × (lookup_mr mrs pd sge.lkey ≡ lookup_found mr)
        × ((mr.is_dma ≡ true) ⊎ (IsRegion mr × InRegion mr sge)))

abbrev pub AllKnown : Heap DisMr → DisPd → List IbSge → Type 0
AllKnown mrs pd [] = Unit
AllKnown mrs pd (sge ∷ sges) = IsKnown mrs pd sge × AllKnown mrs pd sges

-- kmalloc returns as much as it is asked for, where it returns memory.
abbrev pub IsAllocator : (ℕ → Option (ℕ × List Iovec)) → Type 0
IsAllocator kmalloc = (n : ℕ) → AllSome (λ (p : ℕ × List Iovec). length p.1 ≡ n) (kmalloc n)

-- The segments that are mapped by pages lie in their regions and touch at most `n` pages.
abbrev Fits : ℕ → List DisSgeMap → Type 0
Fits n [] = Unit
Fits n (dma_map ∷ ms) = Fits n ms
Fits n (page_map m ∷ ms) =
    (mr : DisMr) × (sge : IbSge) × (m ≡ map_sge mr sge)
    × IsRegion mr
    × InRegion mr sge
    × (k : ℕ) × (sge_touched mr sge + k ≤ n)
    × Fits k ms

-- The first loop refuses the request or counts enough elements.
abbrev CountedFits : ℕ → Counted → Type 0
CountedFits before count_fault = ⊥
CountedFits before (count_refused w) = Unit
CountedFits before (counted w ms) =
    (k : ℕ) × (before + k ≤ w.iovlen) × (w.byte_len < 2 ^ 32) × Fits k ms

prepend_dma : (n : ℕ) (k : Counted) → CountedFits (n + 1) k → CountedFits n (prepend dma_map k)
prepend_dma n count_fault fits = fits
prepend_dma n (count_refused w) fits = fits
prepend_dma n (counted w ms) (k, upto, small, fits) = (k, omega arith, small, fits)

prepend_pages :
    (n : ℕ) (mr : DisMr) (sge : IbSge) (k : Counted)
    → IsRegion mr
    → InRegion mr sge
    → CountedFits (n + (map_sge mr sge).page_count) k
    → CountedFits n (prepend (page_map (map_sge mr sge)) k)
prepend_pages n mr sge count_fault r i fits = fits
prepend_pages n mr sge (count_refused w) r i fits = fits
prepend_pages n mr sge (counted w ms) r i (k, upto, small, fits) =
    let touched = (sge_bounds mr sge r i).1 in
    let counted_eq = (map_sge_lem mr sge r i).count_eq in
    (sge_touched mr sge + k, omega arith, small, (mr, sge, refl, r, i, k, omega arith, fits))

count_sges-CountedFits :
    (mrs : Heap DisMr) (pd : DisPd) (i : ℕ) (sges : List IbSge) (wqe : DisWqe)
    → wqe.byte_len < 2 ^ 32
    → AllKnown mrs pd sges
    → CountedFits wqe.iovlen (count_sges mrs pd i sges wqe)
unfolding count_sges put_dma put_pages
count_sges-CountedFits mrs pd i [] wqe small known = (0, omega arith, small, tt)
count_sges-CountedFits mrs pd i (sge ∷ sges) wqe small (known, others) = elim known [
  | inl absent ↦ rw (absent, count_sges) tt
  | inr (mr, found, where_to) ↦ elim where_to [
    | inl dma ↦
        rw (found, count_sges)
          (rw dma (
            prepend_dma wqe.iovlen _ (
              count_sges-CountedFits mrs pd (i + 1) sges (put_dma i sge wqe) (omega arith) others)))
    | inr (region, inside) ↦
        rw (found, count_sges)
          (rw region.not_dma (
            prepend_pages wqe.iovlen mr sge _ region inside (
              count_sges-CountedFits mrs pd (i + 1) sges (put_pages (map_sge mr sge) wqe) small
                others)))
  ]
]

-- The second loop ends.
fill_sges-Returns :
    (n : ℕ) (ms : List DisSgeMap) (f : Fill)
    → Fits n ms
    → f.byte_len < 2 ^ 32
    → f.pos + n ≤ length f.cells
    → Returns (fill_sges ms f)
unfolding fill_sges
fill_sges-Returns n [] f fits small room = (f, refl)
fill_sges-Returns n (dma_map ∷ ms) f fits small room = fill_sges-Returns n ms f fits small room
fill_sges-Returns n (page_map m ∷ ms) f (mr, sge, same, r, i, k, upto, fits) small room =
    let (g, run, app) = fill_map_lem mr sge f r i small (omega arith) in
    let (h, runs) =
      fill_sges-Returns k ms g fits (omega (arith, app.counted_bytes))
        (omega (arith, app.same_room, app.moved)) in
    (h, rw same (fill_sges_step (map_sge mr sge) ms f run ∙ runs))

-- The array that is chosen has room for the elements counted.
abbrev HasRoom : ℕ → Store → Type 0
HasRoom n (no_store w) = Unit
HasRoom n (stored w) = (n ≤ length (cells_of w.iov w)) × (w.byte_len < 2 ^ 32)

choose_store-HasRoom :
    (kmalloc : ℕ → Option (ℕ × List Iovec)) (wqe : DisWqe)
    → IsAllocator kmalloc
    → length wqe.page_map_static ≡ dis_sge_per_wqe
    → wqe.byte_len < 2 ^ 32
    → HasRoom wqe.iovlen (choose_store kmalloc wqe)
unfolding choose_store
choose_store-HasRoom kmalloc wqe allocates array small =
    elim (Bool-cases (ltb dis_max_iovlen wqe.iovlen)) [
      | inl long ↦ rw long tt
      | inr short ↦ elim (Bool-cases (leb wqe.iovlen dis_sge_per_wqe)) [
        | inl few ↦ rw (short, few) (ground arith, small)
        | inr many ↦ elim (Option-cases (kmalloc wqe.iovlen)) [
          | inl no_memory ↦ rw (short, many, choose_store, no_memory) tt
          | inr ((a, cells), granted) ↦
              let size =
                AllSome-elim (λ (p : ℕ × List Iovec). length p.1 ≡ wqe.iovlen)
                  (allocates wqe.iovlen) granted in
              rw (short, many, choose_store, granted) (omega (arith, size), small)
        ]
      ]
    ]

module _ (c : CircBuf) (kmalloc : ℕ → Option (ℕ × List Iovec)) (mem : Mem) where
  fill_stored-Returns :
      (n k : ℕ) (ms : List DisSgeMap) (s : Store)
      → k ≤ n
      → Fits k ms
      → HasRoom n s
      → Returns (fill_stored c kmalloc mem ms s)
  unfolding fill_stored fill_wqe
  fill_stored-Returns n k ms (no_store w) upto fits room = ((fail 42, w), refl)
  fill_stored-Returns n k ms (stored w) upto fits (room, small) =
      let f : Fill = record { cells = cells_of w.iov w; pos = 0; byte_len = w.byte_len } in
      let (g, run) = fill_sges-Returns k ms f fits small (omega arith) in
      (
        (done, with_cells w.iov g.cells (record w { byte_len = g.byte_len })),
        rw (run, fill_stored, fill_wqe) refl,
      )

  map_counted-Returns :
      (k : Counted)
      → IsAllocator kmalloc
      → CountedLen dis_sge_per_wqe k
      → CountedFits 0 k
      → Returns (map_counted c kmalloc mem k)
  unfolding map_counted
  map_counted-Returns count_fault allocates array fits = elim fits [ ]
  map_counted-Returns (count_refused w) allocates array fits = ((fail 42, w), refl)
  map_counted-Returns (counted w ms) allocates array (k, upto, small, fits) =
      fill_stored-Returns w.iovlen k ms (choose_store kmalloc w) (omega arith) fits
        (choose_store-HasRoom kmalloc w allocates array small)

  build_wqe-Returns :
      (opcode : WcOpcode) (pd : DisPd) (wq : DisWq) (wr : IbWr)
      → IsAllocator kmalloc
      → length (get_or wq.buf wq.head zero_wqe).page_map_static ≡ dis_sge_per_wqe
      → AllKnown mem.mrs pd (used_sges wr)
      → Returns (build_wqe c kmalloc mem opcode pd wq wr)
  unfolding build_wqe init_wqe
  build_wqe-Returns opcode pd wq wr allocates array known =
      let wqe = init_wqe opcode wq wr (get_or wq.buf wq.head zero_wqe) in
      map_counted-Returns (count_sges mem.mrs pd 0 (used_sges wr) wqe) allocates
        (count_sges-CountedLen dis_sge_per_wqe mem.mrs pd 0 (used_sges wr) wqe array)
        (count_sges-CountedFits mem.mrs pd 0 (used_sges wr) wqe (omega arith) known)

  commit-Returns :
      (wq : DisWq) (o : Option (Ret × DisWqe)) → Returns o → Returns (commit c kmalloc mem wq o)
  commit-Returns wq none (x, e) = cc
  commit-Returns wq (some (done, w)) r = (_, refl)
  commit-Returns wq (some (fail n, w)) r = (_, refl)

  -- Let the queue be valid, its domain be there, and each of the first four segments of the request
  -- name, by its key, nothing, a live region for DMA, or a live region that it lies in. Then posting
  -- returns, with kmalloc's memory or without, with room in the queue or without.
  pub post_one-Returns :
      (opcode : WcOpcode) (pd : DisPd) (wq : DisWq) (wr : IbWr)
      → IsAllocator kmalloc
      → IsWq wq
      → mem.pd_of wq.ibqp ≡ some pd
      → AllKnown mem.mrs pd (used_sges wr)
      → Returns (post_one c kmalloc mem opcode wq wr)
  post_one-Returns opcode pd wq wr allocates v found known =
      elim (Bool-cases (ltb (c.circ_space wq.head wq.tail wq.wqe_max) 1)) [
        | inl full ↦ ((fail 42, wq), post_one_full c kmalloc mem opcode pd wq wr found full)
        | inr room ↦
            let (r, run) = commit-Returns wq (build_wqe c kmalloc mem opcode pd wq wr) (
              build_wqe-Returns opcode pd wq wr allocates (v.arrays wq.head v.ring.head_in)
                known) in
            (r, post_one_open c kmalloc mem opcode pd wq wr found room ∙ run)
      ]
