-- ===== src/Mr.antt =====
-- Memory regions: dis_get_dma_mr, dis_reg_user_mr and dis_dereg_mr of driver/dis_verbs.c.
--
-- The user address `start` and `access` go to ib_umem_get alone. What the kernel answers is an
-- argument: whether kzalloc finds memory, what ib_umem_get returns, and the addresses of the pinned
-- pages. What is acquired and released is recorded in order.
pub mod Lookup
pub mod Inv
pub mod Leaks
pub mod Effect
pub mod Total
pub mod Lifetime
pub mod Tests
use dis_kverbs.Common.{
  ℕ, zero, suc, ◌+◌, ◌≤◌, ◌<◌, Bool, true, false, Option, none, some, List, [], ◌∷◌, ◌++◌, ltb, leb,
  ◌==◌, if◌then◌else◌, length, set, replicate,
}
use dis_kverbs.Events.{Event, acquire, release}
use dis_kverbs.Memory.{Heap, load, fresh, alloc, free}
use dis_kverbs.Pd.{DisPd}
use dis_kverbs.Verbs.{Ret, done, Iovec, DisMr, zero_iovec, dis_mr_max, page_size, u32}

-- What a registration acquires.
pub data Resource : Type 0 where
  mr_memory pages_memory : Resource
  pinned : ℕ → Resource

-- ERR_PTR(-EINVAL), or the address of the region.
pub data MrResult : Type 0 where
  einval : MrResult
  registered : ℕ → MrResult

-- The domain, the regions in memory, the result and what happened.
pub record MrOut : Type 0 where
  pub result : MrResult
  pub pd : DisPd
  pub mrs : Heap DisMr
  pub events : List (Event Resource)

abbrev pub zero_mr : DisMr
zero_mr = record {
  lkey = 0;
  ibumem = 0;
  pages = [];
  mr_va = 0;
  mr_va_offset = 0;
  mr_length = 0;
  page_count = 0;
  is_dma = false;
}

-- An l_key is obtained, and the region is registered with the domain.
abbrev pub keyed : DisPd → DisMr → DisMr
keyed pd mr = record mr { lkey = pd.mr_c }

abbrev pub enter : DisPd → ℕ → DisPd
enter pd a = record pd { mr_list = set pd.mr_list pd.mr_c a; mr_c = pd.mr_c + 1 }

unfoldable pub dis_get_dma_mr : DisPd → Heap DisMr → Bool → MrOut
dis_get_dma_mr pd mrs mr_alloc =
    if leb dis_mr_max pd.mr_c
    then record { result = einval; pd = pd; mrs = mrs; events = [] }
    else if mr_alloc
    then record {
      result = registered (fresh mrs);
      pd = enter pd (fresh mrs);
      mrs = alloc mrs (keyed pd (record zero_mr { is_dma = true }));
      events = acquire mr_memory ∷ [];
    }
    else record { result = einval; pd = pd; mrs = mrs; events = [] }

-- What ib_umem_get hands out: its address, ib_umem_page_count, ib_umem_offset, and page_address of
-- each page that the loop goes over.
pub record Umem : Type 0 where
  pub umem : ℕ
  pub umem_page_count : ℕ
  pub umem_offset : ℕ
  pub addresses : List ℕ

-- The region that is made of pinned pages.
abbrev pub user_mr : Umem → ℕ → ℕ → List Iovec → DisMr
user_mr u len va pages = record zero_mr {
  ibumem = u.umem;
  pages = pages;
  mr_va = va;
  mr_length = len;
  mr_va_offset = u.umem_offset;
  page_count = u32 u.umem_page_count;
}

-- The kernel's answers; `umem_get` is `none` where ib_umem_get returns an error.
pub record RegEnv : Type 0 where
  pub mr_alloc : Bool
  pub umem_get : Option Umem
  pub pages_alloc : Bool

-- The loop over the pinned pages, from index `i` on: a page that lies beyond the array is written
-- all the same, and one without an address ends the loop.
pub data Stored : Type 0 where
  beyond no_address : Stored
  all_stored : List Iovec → Stored

pub store_pages : List Iovec → ℕ → List ℕ → Stored
store_pages pages i [] = all_stored pages
store_pages pages i (a ∷ rest_addrs) =
    let rest =
      store_pages (set pages i (record { iov_base = a; iov_len = page_size })) (i + 1) rest_addrs in
    if ltb i (length pages) then (if a == 0 then no_address else rest) else beyond

module _ (pd : DisPd) (mrs : Heap DisMr) (len va : ℕ) where
  abbrev pub failed : List (Event Resource) → MrOut
  failed events = record { result = einval; pd = pd; mrs = mrs; events = events }

  -- After the pages' memory is found; `none` is a write out of bounds.
  pub reg_stored : Umem → Stored → Option MrOut
  reg_stored u beyond = none
  reg_stored u no_address = some (
      failed (
        acquire mr_memory
        ∷ acquire (pinned u.umem)
        ∷ acquire pages_memory
        ∷ release pages_memory
        ∷ release (pinned u.umem)
        ∷ release mr_memory
        ∷ []))
  reg_stored u (all_stored pages) = some (record {
    result = registered (fresh mrs);
    pd = enter pd (fresh mrs);
    mrs = alloc mrs (keyed pd (user_mr u len va pages));
    events = acquire mr_memory ∷ acquire (pinned u.umem) ∷ acquire pages_memory ∷ [];
  })

  -- After the region's memory is found.
  pub reg_umem : Option Umem → Bool → Option MrOut
  reg_umem none pages_alloc = some (failed (acquire mr_memory ∷ release mr_memory ∷ []))
  reg_umem (some u) pages_alloc =
      if u32 u.umem_page_count == 0
      then some (
          failed (
            acquire mr_memory
            ∷ acquire (pinned u.umem)
            ∷ release (pinned u.umem)
            ∷ release mr_memory
            ∷ []))
      else if pages_alloc
      then reg_stored u (store_pages (replicate (u32 u.umem_page_count) zero_iovec) 0 u.addresses)
      else some (
          failed (
            acquire mr_memory
            ∷ acquire (pinned u.umem)
            ∷ release (pinned u.umem)
            ∷ release mr_memory
            ∷ []))

  pub dis_reg_user_mr : RegEnv → Option MrOut
  dis_reg_user_mr env =
      if leb dis_mr_max pd.mr_c
      then some (failed [])
      else if env.mr_alloc
      then reg_umem env.umem_get env.pages_alloc
      else some (failed [])

abbrev pub given_back : DisMr → List (Event Resource)
given_back mr =
    if mr.is_dma
    then release mr_memory ∷ []
    else release pages_memory ∷ release (pinned mr.ibumem) ∷ release mr_memory ∷ []

-- `none` is a read through a pointer to a region that was freed. The domain is not told.
unfoldable pub dis_dereg_mr : Heap DisMr → ℕ → Option (Ret × Heap DisMr × List (Event Resource))
dis_dereg_mr mrs a = elim (load mrs a) [
  | none ↦ none
  | some mr ↦ some (done, free mrs a, given_back mr)
]
