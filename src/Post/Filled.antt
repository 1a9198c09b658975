-- ===== src/Post/Filled.antt =====
-- An entry's array: the one that is chosen for it, and what filling it leaves alone.
use dis_kverbs.Common.{
  ℕ, ◌≤◌, ◌≡◌, List, [], ◌∷◌, Option, some, arith, leb, length, refl, ap, ◌∙◌, sym, take, ◌⊎◌, inl,
  inr, le→ltb, Bool-cases,
}
use dis_kverbs.Memory.{Heap}
use dis_kverbs.Pd.{DisPd}
use dis_kverbs.Verbs.{
  Iovec, DisMr, DisWqe, IovPtr, iov_null, iov_static, iov_dynamic, u32, dis_max_iovlen,
  dis_sge_per_wqe,
}
use dis_kverbs.Post.{
  IbSge, DisSgeMap, stored, choose_store, Fill, fill_sges, fill_wqe, cells_of, with_cells,
}
use dis_kverbs.Post.Spec.{AllIn, all_bytes, sges_bytes, sges_len, sges_touched}
use dis_kverbs.Post.Count.{sge_maps, fill_sges_lem}

-- An array for `n` elements: the entry's own, or one that kmalloc finds.
abbrev pub Granted : (ℕ → Option (ℕ × List Iovec)) → ℕ → Type 0
Granted kmalloc n =
    (n ≤ dis_sge_per_wqe) ⊎ ((a : ℕ × List Iovec) × (kmalloc n ≡ some a) × (length a.1 ≡ n))

fill_wqe_step :
    (ms : List DisSgeMap) (wqe : DisWqe) (g : Fill)
    → fill_sges ms (record { cells = cells_of wqe.iov wqe; pos = 0; byte_len = wqe.byte_len })
      ≡ some g
    → fill_wqe ms wqe ≡ some (with_cells wqe.iov g.cells (record wqe { byte_len = g.byte_len }))
unfolding fill_wqe
fill_wqe_step ms wqe g run = rw (run, fill_wqe)

-- The second loop over an entry whose array has room.
pub fill_wqe_lem :
    (mrs : Heap DisMr) (pd : DisPd) (rs : List DisMr) (sges : List IbSge) (wqe : DisWqe)
    → AllIn mrs pd rs sges
    → wqe.byte_len ≡ 0
    → sges_touched rs sges ≤ length (cells_of wqe.iov wqe)
    → (cells : List Iovec) × (fill_wqe (sge_maps rs sges) wqe
        ≡ some (with_cells wqe.iov cells (record wqe { byte_len = u32 (sges_len sges) })))
      × (length cells ≡ length (cells_of wqe.iov wqe))
      × (all_bytes (take (sges_touched rs sges) cells) ≡ sges_bytes rs sges)
fill_wqe_lem mrs pd rs sges wqe a zero_len room =
    let f : Fill = record { cells = cells_of wqe.iov wqe; pos = 0; byte_len = wqe.byte_len } in
    let (g, run, app) = fill_sges_lem mrs pd rs sges f a (omega arith) (omega arith) in
    let moved : g.pos ≡ sges_touched rs sges = omega (arith, app.moved) in
    let total : g.byte_len ≡ u32 (sges_len sges) = omega (arith, app.counted_bytes) in
    (
      g.cells,
      fill_wqe_step (sge_maps rs sges) wqe g run
          ∙ ap (λ n. some (with_cells wqe.iov g.cells (record wqe { byte_len = n }))) total,
      app.same_room,
      ap (λ n. all_bytes (take n g.cells)) (sym moved) ∙ app.named,
    )

-- The fields that filling an array leaves alone.
pub record IsFilled (wqe wqe' : DisWqe) : Type 0 where
  pub kept_byte_len : wqe'.byte_len ≡ wqe.byte_len
  pub kept_iovlen : wqe'.iovlen ≡ wqe.iovlen
  pub kept_wr_id : wqe'.wr_id ≡ wqe.wr_id
  pub kept_opcode : wqe'.opcode ≡ wqe.opcode
  pub kept_ibqp : wqe'.ibqp ≡ wqe.ibqp

IsFilled-refl : (wqe : DisWqe) → IsFilled wqe wqe
IsFilled-refl wqe = record {
  kept_byte_len = refl;
  kept_iovlen = refl;
  kept_wr_id = refl;
  kept_opcode = refl;
  kept_ibqp = refl;
}

IsFilled-static :
    (wqe : DisWqe) (cells : List Iovec) → IsFilled wqe (record wqe { page_map_static = cells })
IsFilled-static wqe cells = record {
  kept_byte_len = refl;
  kept_iovlen = refl;
  kept_wr_id = refl;
  kept_opcode = refl;
  kept_ibqp = refl;
}

IsFilled-dynamic :
    (wqe : DisWqe) (cells : List Iovec) → IsFilled wqe (record wqe { dynamic_cells = cells })
IsFilled-dynamic wqe cells = record {
  kept_byte_len = refl;
  kept_iovlen = refl;
  kept_wr_id = refl;
  kept_opcode = refl;
  kept_ibqp = refl;
}

-- The length of the message is no part of its array.
pub cells_of_byte_len :
    (i : IovPtr) (wqe : DisWqe) (n : ℕ) → cells_of i (record wqe { byte_len = n }) ≡ cells_of i wqe
cells_of_byte_len iov_null wqe n = refl
cells_of_byte_len (iov_static k) wqe n = refl
cells_of_byte_len iov_dynamic wqe n = refl

-- A queue entry whose elements are counted, with the array that is chosen for it.
pub record IsStored (wqe wqe' : DisWqe) : Type 0 where
  pub same_byte_len : wqe'.byte_len ≡ wqe.byte_len
  pub same_iovlen : wqe'.iovlen ≡ wqe.iovlen
  pub same_wr_id : wqe'.wr_id ≡ wqe.wr_id
  pub same_opcode : wqe'.opcode ≡ wqe.opcode
  pub same_ibqp : wqe'.ibqp ≡ wqe.ibqp
  pub same_array : wqe'.page_map_static ≡ wqe.page_map_static
  pub space : wqe.iovlen ≤ length (cells_of wqe'.iov wqe')

-- The entry with its array filled.
pub with_cells_lem :
    (i : IovPtr) (cells : List Iovec) (wqe : DisWqe)
    → wqe.iov ≡ i
    → length cells ≡ length (cells_of i wqe)
    → (cells_of (with_cells i cells wqe).iov (with_cells i cells wqe) ≡ cells)
      × (length (with_cells i cells wqe).page_map_static ≡ length wqe.page_map_static)
      × IsFilled wqe (with_cells i cells wqe)
with_cells_lem iov_null [] wqe e h = (ap (λ j. cells_of j wqe) e, refl, IsFilled-refl wqe)
with_cells_lem iov_null (x ∷ cells) wqe e h = absurd (omega arith)
with_cells_lem (iov_static k) cells wqe e h =
    (ap (λ j. cells_of j (record wqe { page_map_static = cells })) e, h, IsFilled-static wqe cells)
with_cells_lem iov_dynamic cells wqe e h = (
  ap (λ j. cells_of j (record wqe { dynamic_cells = cells })) e,
  refl,
  IsFilled-dynamic wqe cells,
)

pub choose_store_lem :
    (kmalloc : ℕ → Option (ℕ × List Iovec)) (wqe : DisWqe)
    → wqe.iovlen ≤ dis_max_iovlen
    → length wqe.page_map_static ≡ dis_sge_per_wqe
    → Granted kmalloc wqe.iovlen
    → (wqe' : DisWqe) × (choose_store kmalloc wqe ≡ stored wqe') × IsStored wqe wqe'
unfolding choose_store
choose_store_lem kmalloc wqe small array granted =
    elim (Bool-cases (leb wqe.iovlen dis_sge_per_wqe)) [
      | inl few ↦ (
        record wqe { iov = iov_static 0 },
        rw (le→ltb dis_max_iovlen wqe.iovlen small, few),
        record {
          same_byte_len = refl;
          same_iovlen = refl;
          same_wr_id = refl;
          same_opcode = refl;
          same_ibqp = refl;
          same_array = refl;
          space = ground arith;
        },
      )
      | inr many ↦ elim granted [
        | inl few ↦ absurd (ground arith)
        | inr (a, found, size) ↦ (
          record wqe { page_map_dynamic = a.0; dynamic_cells = a.1; iov = iov_dynamic },
          rw (le→ltb dis_max_iovlen wqe.iovlen small, many, found),
          record {
            same_byte_len = refl;
            same_iovlen = refl;
            same_wr_id = refl;
            same_opcode = refl;
            same_ibqp = refl;
            same_array = refl;
            space = omega arith;
          },
        )
      ]
    ]
