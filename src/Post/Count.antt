-- ===== src/Post/Count.antt =====
-- The first loop of dis_qp_post_one_sqe and _rqe, over segments that lie in their regions.
use dis_kverbs.Common.{
  ℕ, suc, ◌+◌, ◌*◌, ◌/◌, ◌%◌, ◌^◌, ◌≤◌, ◌<◌, ◌≡◌, List, [], ◌∷◌, some, arith, false, length, refl,
  ap, ap₂, ◌∙◌, tabulate,
}
use mathlib.Core.Path.{fun_ext}
use dis_kverbs.Memory.{Heap}
use dis_kverbs.Pd.{DisPd}
use dis_kverbs.Verbs.{DisMr, DisWqe, page_size, u64, sub64}
use dis_kverbs.Post.{
  IbSge, DisSgeMap, page_map, PageMap, prepend, fill_map, counted, count_sges, map_sge, put_pages,
  Fill, fill_sges,
}
use dis_kverbs.Mr.Lookup.{lookup_mr, lookup_found}
use dis_kverbs.Post.Spec.{
  IsRegion, InRegion, AllIn, region_offset, sge_bytes, sges_bytes, sges_len, sge_touched,
  sges_touched, sge_counted, sges_counted, pages_touched, phys,
}
use dis_kverbs.Post.Loop.{Appended, Appended-eq, Appended-none, Appended-trans, fill_pages_lem}

-- What the arithmetic on 64-bit words computes where nothing wraps.
pub record IsMapped (mr : DisMr) (sge : IbSge) (m : PageMap) : Type 0 where
  pub pages_eq : m.mr_pages ≡ mr.pages
  pub len_eq : m.sge_len ≡ sge.length
  pub page_eq : m.page_offset ≡ region_offset mr sge / page_size
  pub base_eq : m.base_offset ≡ region_offset mr sge % page_size
  pub count_eq : m.page_count ≡ sge_counted mr sge

pub map_sge_lem :
    (mr : DisMr) (sge : IbSge) → IsRegion mr → InRegion mr sge → IsMapped mr sge (map_sge mr sge)
unfolding map_sge
map_sge_lem mr sge r i = record {
  pages_eq = refl;
  len_eq = refl;
  page_eq = ap (λ (x : ℕ). x / page_size) base;
  base_eq = omega (arith, base);
  count_eq = omega (arith, base);
}
  where
    base : u64 (sub64 sge.addr mr.mr_va + mr.mr_va_offset) ≡ region_offset mr sge
    base = omega arith

-- The segment's pages are pages of the region, and at most as many as are counted for it.
pub sge_bounds :
    (mr : DisMr) (sge : IbSge)
    → IsRegion mr
    → InRegion mr sge
    → (region_offset mr sge / page_size + sge_touched mr sge ≤ length mr.pages)
      × (sge_touched mr sge ≤ sge_counted mr sge)
unfolding pages_touched
sge_bounds mr sge r i = ground arith

pub sge_maps : List DisMr → List IbSge → List DisSgeMap
sge_maps (mr ∷ rs) (sge ∷ sges) = page_map (map_sge mr sge) ∷ sge_maps rs sges
sge_maps _ _ = []

count_page :
    (mrs : Heap DisMr) (pd : DisPd) (i : ℕ) {mr : DisMr} (sge : IbSge) (sges : List IbSge)
    (wqe : DisWqe)
    → lookup_mr mrs pd sge.lkey ≡ lookup_found mr
    → mr.is_dma ≡ false
    → count_sges mrs pd i (sge ∷ sges) wqe
      ≡ prepend
          (page_map (map_sge mr sge))
          (count_sges mrs pd (i + 1) sges (put_pages (map_sge mr sge) wqe))
unfolding count_sges
count_page mrs pd i sge sges wqe found paged = ground arith

-- The first loop counts the elements and changes nothing else of the entry.
pub count_sges_lem :
    (mrs : Heap DisMr) (pd : DisPd) (i : ℕ) (rs : List DisMr) (sges : List IbSge) (wqe : DisWqe)
    → AllIn mrs pd rs sges
    → count_sges mrs pd i sges wqe
      ≡ counted (record wqe { iovlen = wqe.iovlen + sges_counted rs sges }) (sge_maps rs sges)
unfolding count_sges sge_maps put_pages
count_sges_lem mrs pd i [] [] wqe a = ap (λ n. counted (record wqe { iovlen = n }) []) (omega arith)
count_sges_lem mrs pd i [] (sge ∷ sges) wqe a = elim a [ ]
count_sges_lem mrs pd i (mr ∷ rs) [] wqe a = elim a [ ]
count_sges_lem mrs pd i (mr ∷ rs) (sge ∷ sges) wqe a =
    rw
      (
        count_page mrs pd i sge sges wqe a.0 a.1.not_dma,
        count_sges_lem mrs pd (i + 1) rs sges (put_pages (map_sge mr sge) wqe) a.3,
      )
      (ap (λ n. counted (record wqe { iovlen = n }) (page_map (map_sge mr sge) ∷ sge_maps rs sges))
        (omega (arith, (map_sge_lem mr sge a.1 a.2).count_eq)))

-- The second loop over one segment.
pub fill_map_lem :
    (mr : DisMr) (sge : IbSge) (f : Fill)
    → IsRegion mr
    → InRegion mr sge
    → f.byte_len < 2 ^ 32
    → f.pos + sge_touched mr sge ≤ length f.cells
    → (f' : Fill) × (fill_map (map_sge mr sge) f ≡ some f')
      × Appended f f' (sge_touched mr sge) sge.length (sge_bytes mr sge)
unfolding fill_map map_sge
fill_map_lem mr sge f r i small room =
    let m : PageMap = map_sge mr sge in
    let e = map_sge_lem mr sge r i in
    let touched : pages_touched m.base_offset m.sge_len ≡ sge_touched mr sge =
      ap₂ pages_touched e.base_eq e.len_eq in
    let bounds = sge_bounds mr sge r i in
    let (f', run, app) =
      fill_pages_lem (suc m.sge_len) m.mr_pages m.page_offset m.base_offset m.sge_len f
        (omega arith) small (omega (arith, e.base_eq)) (omega (arith, e.page_eq, touched, bounds))
        (omega (arith, touched)) in
    (f', run, Appended-eq app touched e.len_eq (ap₂ tabulate (fun_ext bytes) e.len_eq))
  where
    bytes :
        (j : ℕ)
        → phys
            (map_sge mr sge).mr_pages
            ((map_sge mr sge).page_offset * page_size + (map_sge mr sge).base_offset + j)
          ≡ phys mr.pages (region_offset mr sge + j)
    bytes j = ap (phys mr.pages) (omega arith)

pub fill_sges_step :
    (m : PageMap) (ms : List DisSgeMap) (f : Fill) {g : Fill}
    → fill_map m f ≡ some g
    → fill_sges (page_map m ∷ ms) f ≡ fill_sges ms g
unfolding fill_sges
fill_sges_step m ms f run = ground arith

-- The second loop ends and names all bytes in order.
pub fill_sges_lem :
    (mrs : Heap DisMr) (pd : DisPd) (rs : List DisMr) (sges : List IbSge) (f : Fill)
    → AllIn mrs pd rs sges
    → f.byte_len < 2 ^ 32
    → f.pos + sges_touched rs sges ≤ length f.cells
    → (f' : Fill) × (fill_sges (sge_maps rs sges) f ≡ some f')
      × Appended f f' (sges_touched rs sges) (sges_len sges) (sges_bytes rs sges)
unfolding fill_sges sge_maps pages_touched
fill_sges_lem mrs pd [] [] f a small room = (f, refl, Appended-none f 0 0 (λ j. j) refl small)
fill_sges_lem mrs pd [] (sge ∷ sges) f a small room = elim a [ ]
fill_sges_lem mrs pd (mr ∷ rs) [] f a small room = elim a [ ]
fill_sges_lem mrs pd (mr ∷ rs) (sge ∷ sges) f a small room =
    let (g, run, first) = fill_map_lem mr sge f a.1 a.2 small (omega arith) in
    let (f', runs, rest) =
      fill_sges_lem mrs pd rs sges g a.3 (omega (arith, first.counted_bytes))
        (omega (arith, first.same_room, first.moved)) in
    (f', fill_sges_step (map_sge mr sge) (sge_maps rs sges) f run ∙ runs, Appended-trans first rest)

-- No more elements are written than are counted.
pub sges_touched-le-counted :
    (mrs : Heap DisMr) (pd : DisPd) (rs : List DisMr) (sges : List IbSge)
    → AllIn mrs pd rs sges
    → sges_touched rs sges ≤ sges_counted rs sges
sges_touched-le-counted mrs pd [] [] a = omega arith
sges_touched-le-counted mrs pd [] (sge ∷ sges) a = elim a [ ]
sges_touched-le-counted mrs pd (mr ∷ rs) [] a = elim a [ ]
sges_touched-le-counted mrs pd (mr ∷ rs) (sge ∷ sges) a =
    omega (arith, (sge_bounds mr sge a.1 a.2).1, sges_touched-le-counted mrs pd rs sges a.3)
