-- ===== src/Post/Spec.antt =====
-- What the mapping of a work request should compute, byte by byte.
use dis_kverbs.Common.{
  ℕ, ◌+◌, ◌-◌, ◌*◌, ◌/◌, ◌%◌, ◌^◌, ◌≤◌, ◌<◌, ◌≡◌, List, [], ◌∷◌, ◌++◌, ltb, false, if◌then◌else◌,
  get_or, tabulate, concat_map, length,
}
use dis_kverbs.Memory.{Heap}
use dis_kverbs.Pd.{DisPd}
use dis_kverbs.Verbs.{Iovec, DisMr, zero_iovec, page_size}
use dis_kverbs.Post.{IbSge}
use dis_kverbs.Mr.Lookup.{lookup_mr, lookup_found}

-- The addresses that an element names, and those that an array of elements names.
abbrev pub bytes_of : Iovec → List ℕ
bytes_of v = tabulate (λ j. v.iov_base + j) v.iov_len

abbrev pub all_bytes : List Iovec → List ℕ
all_bytes = concat_map bytes_of

-- Where byte `x` of a region lies, counted from the start of its first page.
abbrev pub phys : List Iovec → ℕ → ℕ
phys pages x = (get_or pages (x / page_size) zero_iovec).iov_base + x % page_size

-- The position of a segment in its region, and the addresses of its bytes.
abbrev pub region_offset : DisMr → IbSge → ℕ
region_offset mr sge = sge.addr - mr.mr_va + mr.mr_va_offset

abbrev pub sge_bytes : DisMr → IbSge → List ℕ
sge_bytes mr sge = tabulate (λ j. phys mr.pages (region_offset mr sge + j)) sge.length

-- The pages that `len` bytes touch, from `offset` of the first page on.
unfoldable pub pages_touched : ℕ → ℕ → ℕ
pages_touched offset len = if ltb 0 len then (offset + len + page_size - 1) / page_size else 0

-- A region of user memory that was registered: its pages hold `mr_length` bytes from the offset on.
pub record IsRegion (mr : DisMr) : Type 0 where
  pub not_dma : mr.is_dma ≡ false
  pub offset_in : mr.mr_va_offset < page_size
  pub covered : mr.mr_va_offset + mr.mr_length ≤ length mr.pages * page_size
  pub few : length mr.pages < 2 ^ 32

-- The segment lies in the region.
pub record InRegion (mr : DisMr) (sge : IbSge) : Type 0 where
  pub starts : mr.mr_va ≤ sge.addr
  pub ends : sge.addr + sge.length ≤ mr.mr_va + mr.mr_length
  pub word : sge.addr < 2 ^ 64

-- Each segment names, by its key, a live region of the list that it lies in.
abbrev pub AllIn : Heap DisMr → DisPd → List DisMr → List IbSge → Type 0
AllIn mrs pd [] [] = Unit
AllIn mrs pd (mr ∷ rs) (sge ∷ sges) =
    (lookup_mr mrs pd sge.lkey ≡ lookup_found mr)
    × IsRegion mr
    × InRegion mr sge
    × AllIn mrs pd rs sges
AllIn mrs pd _ _ = ⊥

-- The addresses of all bytes, their number, the pages touched, and the elements that the first loop
-- counts.
abbrev pub sges_bytes : List DisMr → List IbSge → List ℕ
sges_bytes (mr ∷ rs) (sge ∷ sges) = sge_bytes mr sge ++ sges_bytes rs sges
sges_bytes _ _ = []

abbrev pub sges_len : List IbSge → ℕ
sges_len [] = 0
sges_len (sge ∷ sges) = sge.length + sges_len sges

abbrev pub sge_touched : DisMr → IbSge → ℕ
sge_touched mr sge = pages_touched (region_offset mr sge % page_size) sge.length

abbrev pub sges_touched : List DisMr → List IbSge → ℕ
sges_touched (mr ∷ rs) (sge ∷ sges) = sge_touched mr sge + sges_touched rs sges
sges_touched _ _ = 0

abbrev pub sge_counted : DisMr → IbSge → ℕ
sge_counted mr sge = (region_offset mr sge % page_size + sge.length) / page_size + 1

abbrev pub sges_counted : List DisMr → List IbSge → ℕ
sges_counted (mr ∷ rs) (sge ∷ sges) = sge_counted mr sge + sges_counted rs sges
sges_counted _ _ = 0
