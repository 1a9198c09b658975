-- ===== src/Mr/Lifetime.antt =====
-- Registering a region, using its key, and deregistering it.
use dis_kverbs.Common.{
  ℕ, zero, suc, ◌+◌, ◌*◌, ◌^◌, ◌≤◌, ◌<◌, ◌≡◌, refl, ap, ◌∙◌, sym, Bool, true, false, some, List, [],
  ◌∷◌, length, get_elem?, get_or, set, length-set, length-replicate, replicate, get_or-set_self,
  get_or-set_ne, arith, leb, ◌==◌, lt→ltb,
}
use native.Mathlib.Nat.{add-zero, zero-add}
use dis_kverbs.Events.{Event, acquire}
use dis_kverbs.Memory.{Heap, load, fresh, alloc, free, load-free_self}
use dis_kverbs.Pd.{DisPd}
use dis_kverbs.Verbs.{Ret, done, Iovec, DisMr, zero_iovec, dis_mr_max, page_size, u32}
use dis_kverbs.Mr.{
  einval, registered, MrOut, RegEnv, Umem, dis_get_dma_mr, dis_reg_user_mr, dis_dereg_mr, enter,
  keyed, zero_mr, user_mr, given_back, Resource, mr_memory, pages_memory, Stored, all_stored,
  store_pages, reg_umem, reg_stored,
}
use dis_kverbs.Mr.Lookup.{lookup_mr, lookup_found, lookup_fault, followed}
use dis_kverbs.Post.Spec.{IsRegion}
use dis_kverbs.Mr.Inv.{IsPd, IsEntered, enter_lem}

-- What the kernel documents of pinned pages: the pages that hold the bytes, each with an address.
pub record IsUmem (u : Umem) (len : ℕ) : Type 0 where
  pub some_pages : 0 < u.umem_page_count
  pub few_pages : u.umem_page_count < 2 ^ 32
  pub one_address_each : length u.addresses ≡ u.umem_page_count
  pub offset_in : u.umem_offset < page_size
  pub holds_bytes : u.umem_offset + len ≤ u.umem_page_count * page_size
  pub not_null : (i : ℕ) → i < length u.addresses → 0 < get_or u.addresses i 0

store_page :
    (pages : List Iovec) (i a : ℕ) (addrs : List ℕ)
    → i < length pages
    → 0 < a
    → store_pages pages i (a ∷ addrs)
      ≡ store_pages (set pages i (record { iov_base = a; iov_len = page_size })) (i + 1) addrs
unfolding store_pages
store_page pages i a addrs room live =
    let here : (a == 0) ≡ false = ground arith in rw (lt→ltb i (length pages) room, here)

from_first :
    (pages : List Iovec) (i a : ℕ) (addrs : List ℕ)
    → (get_or pages i zero_iovec).iov_base ≡ a
    → ((j : ℕ)
        → j < length addrs
        → (get_or pages (i + 1 + j) zero_iovec).iov_base ≡ get_or addrs j 0)
    → (j : ℕ) → j < suc (length addrs)
    → (get_or pages (i + j) zero_iovec).iov_base ≡ get_or (a ∷ addrs) j 0
from_first pages i a addrs first rest zero lt = rw add-zero first
from_first pages i a addrs first rest (suc j) lt =
    let shift : i + suc j ≡ i + 1 + j = omega arith in rw shift (rest j (omega arith))

-- The loop over the pinned pages stores the address of each in its place.
store_pages_lem :
    (pages : List Iovec) (i : ℕ) (addrs : List ℕ)
    → i + length addrs ≤ length pages
    → ((j : ℕ) → j < length addrs → 0 < get_or addrs j 0)
    → (pages' : List Iovec) × (store_pages pages i addrs ≡ all_stored pages')
      × (length pages' ≡ length pages)
      × ((j : ℕ) → j < i → get_or pages' j zero_iovec ≡ get_or pages j zero_iovec)
      × ((j : ℕ)
          → j < length addrs
          → (get_or pages' (i + j) zero_iovec).iov_base ≡ get_or addrs j 0)
unfolding store_pages
store_pages_lem pages i [] room live =
    (pages, refl, refl, (λ j lt. refl), (λ j lt. absurd (omega arith)))
store_pages_lem pages i (a ∷ addrs) room live =
    let page : Iovec = record { iov_base = a; iov_len = page_size } in
    let (pages', run, len, below, above) =
      store_pages_lem (set pages i page) (i + 1) addrs (omega (arith, length-set pages i page))
        (λ j lt. live (suc j) (omega arith)) in
    (
      pages',
      store_page pages i a addrs (omega arith) (live 0 (omega arith)) ∙ run,
      len ∙ length-set pages i page,
      (λ j lt. below j (omega arith) ∙ get_or-set_ne pages i j page zero_iovec (omega arith)),
      from_first pages' i a addrs
          (ap (λ (v : Iovec). v.iov_base)
            (below i (omega arith) ∙ get_or-set_self pages i page zero_iovec (omega arith)))
          above,
    )

-- What the caller of a successful registration gets.
pub record IsMapping (u : Umem) (va len : ℕ) (mr : DisMr) : Type 0 where
  pub at_va : mr.mr_va ≡ va
  pub all_bytes_of : mr.mr_length ≡ len
  pub offset : mr.mr_va_offset ≡ u.umem_offset
  pub region : IsRegion mr
  pub page_at :
      (i : ℕ)
      → i < u.umem_page_count
      → (get_or mr.pages i zero_iovec).iov_base ≡ get_or u.addresses i 0

module _ (pd : DisPd) (mrs : Heap DisMr) (len va : ℕ) where
  reg_user_mr_run :
      (u : Umem) (s : Stored)
      → pd.mr_c < dis_mr_max
      → (u32 u.umem_page_count == 0) ≡ false
      → store_pages (replicate (u32 u.umem_page_count) zero_iovec) 0 u.addresses ≡ s
      → dis_reg_user_mr pd mrs len va
          (record { mr_alloc = true; umem_get = some u; pages_alloc = true })
        ≡ reg_stored pd mrs len va u s
  unfolding dis_reg_user_mr reg_umem
  reg_user_mr_run u s room pages stored =
      let left : leb dis_mr_max pd.mr_c ≡ false = ground arith in rw (left, pages, stored)

  -- With a key left, memory, and pinned pages as the kernel documents them, registering `len` bytes
  -- of user memory gives the region the next key. Posting finds the region under that key, and finds
  -- the older regions under theirs; the region starts at `va`, at the offset of the
  -- pinned pages, holds `len` bytes, and its page `i` is the `i`-th pinned page.
  pub dis_reg_user_mr_lem :
      (u : Umem)
      → IsPd pd
      → pd.mr_c < dis_mr_max
      → IsUmem u len
      → (out : MrOut) × (mr : DisMr) × (dis_reg_user_mr pd mrs len va
            (record { mr_alloc = true; umem_get = some u; pages_alloc = true })
          ≡ some out)
        × (out.result ≡ registered (fresh mrs))
        × IsEntered pd mrs out.pd out.mrs mr
        × IsMapping u va len mr
  unfolding reg_stored
  dis_reg_user_mr_lem u v room pinned =
      let count : u32 u.umem_page_count ≡ u.umem_page_count = omega (arith, pinned.few_pages) in
      let pages_left : (u32 u.umem_page_count == 0) ≡ false = ground (arith, pinned.some_pages) in
      let blank : List Iovec = replicate u.umem_page_count zero_iovec in
      let blanks : length blank ≡ u.umem_page_count =
        length-replicate u.umem_page_count zero_iovec in
      let (pages, run, size, below, above) =
        store_pages_lem blank 0 u.addresses (omega (arith, blanks, pinned.one_address_each))
          pinned.not_null in
      let stored = ap (λ n. store_pages (replicate n zero_iovec) 0 u.addresses) count ∙ run in
      (
        record {
          result = registered (fresh mrs);
          pd = enter pd (fresh mrs);
          mrs = alloc mrs (keyed pd (user_mr u len va pages));
          events = acquire mr_memory ∷ acquire (Resource.pinned u.umem) ∷ acquire pages_memory ∷ [];
        },
        keyed pd (user_mr u len va pages),
        reg_user_mr_run u (all_stored pages) room pages_left stored,
        refl,
        enter_lem pd mrs (user_mr u len va pages) v room,
        record {
          at_va = refl;
          all_bytes_of = refl;
          offset = refl;
          region = record {
            not_dma = refl;
            offset_in = pinned.offset_in;
            covered = rw (size ∙ blanks) pinned.holds_bytes;
            few = omega (arith, size, blanks, pinned.few_pages);
          };
          page_at = λ i lt.
              ap (λ k. (get_or pages k zero_iovec).iov_base) (sym (zero-add i))
              ∙ above i (omega (arith, pinned.one_address_each));
        },
      )

-- A domain gives out 100 keys and never takes one back: once they are given out, both ways to
-- register fail with -EINVAL and change nothing, whatever was deregistered since.
pub keys_run_out :
    (pd : DisPd) (mrs : Heap DisMr) (len va : ℕ) (mr_alloc : Bool) (env : RegEnv)
    → pd.mr_c ≡ dis_mr_max
    → (dis_get_dma_mr pd mrs mr_alloc ≡ record { result = einval; pd = pd; mrs = mrs; events = [] })
      × (dis_reg_user_mr pd mrs len va env
          ≡ some (record { result = einval; pd = pd; mrs = mrs; events = [] }))
unfolding dis_get_dma_mr dis_reg_user_mr
keys_run_out pd mrs len va mr_alloc env e =
    let over : leb dis_mr_max pd.mr_c ≡ true = ground arith in (rw over, rw over)

-- With a key left and memory, a region for DMA gets the next key, under which posting finds it, and
-- the older regions keep theirs.
pub dis_get_dma_mr_lem :
    (pd : DisPd) (mrs : Heap DisMr)
    → IsPd pd
    → pd.mr_c < dis_mr_max
    → let out = dis_get_dma_mr pd mrs true in
      (mr : DisMr) × (out.result ≡ registered (fresh mrs))
      × IsEntered pd mrs out.pd out.mrs mr
      × (mr.is_dma ≡ true)
unfolding dis_get_dma_mr
dis_get_dma_mr_lem pd mrs v room =
    let left : leb dis_mr_max pd.mr_c ≡ false = ground arith in
    rw left (_, refl, enter_lem pd mrs (record zero_mr { is_dma = true }) v room, refl)

-- Deregistering a live region succeeds and frees it, but leaves its address in the table: every key
-- that named the region leads posting to freed memory afterwards.
pub dereg_dangles :
    (pd : DisPd) (mrs : Heap DisMr) (k a : ℕ) (mr : DisMr)
    → get_elem? pd.mr_list k ≡ some (suc a)
    → load mrs (suc a) ≡ some mr
    → (out : Ret × Heap DisMr × List (Event Resource)) × (dis_dereg_mr mrs (suc a) ≡ some out)
      × (out.0 ≡ done)
      × (lookup_mr mrs pd k ≡ lookup_found mr)
      × (lookup_mr out.1 pd k ≡ lookup_fault)
unfolding dis_dereg_mr lookup_mr
dereg_dangles pd mrs k a mr at live = (
  (done, free mrs (suc a), given_back mr),
  rw (live, dis_dereg_mr) refl,
  refl,
  rw at (ap followed live),
  rw at (ap followed (load-free_self mrs (suc a))),
)
