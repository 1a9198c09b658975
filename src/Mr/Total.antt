-- ===== src/Mr/Total.antt =====
-- Registering user memory returns, as long as no more pages are pinned than ib_umem_page_count says.
use dis_kverbs.Common.{
  ℕ, ◌+◌, ◌≤◌, ◌≡◌, refl, arith, Bool, true, Bool-cases, inl, inr, List, [], ◌∷◌, Option, none,
  some, ltb, lt→ltb, leb, ◌==◌, length, length-set, length-replicate, set, replicate, Returns,
}
use dis_kverbs.Memory.{Heap}
use dis_kverbs.Pd.{DisPd}
use dis_kverbs.Verbs.{Iovec, DisMr, dis_mr_max, page_size, zero_iovec, u32}
use dis_kverbs.Mr.{
  RegEnv, Umem, Stored, beyond, no_address, all_stored, store_pages, reg_stored, reg_umem,
  dis_reg_user_mr,
}

-- No more pages than are counted.
abbrev pub IsPinned : Option Umem → Type 0
IsPinned none = Unit
IsPinned (some u) = length u.addresses ≤ u32 u.umem_page_count

abbrev IsInside : Stored → Type 0
IsInside beyond = ⊥
IsInside no_address = Unit
IsInside (all_stored pages) = Unit

store_pages-IsInside :
    (pages : List Iovec) (i : ℕ) (addrs : List ℕ)
    → i + length addrs ≤ length pages
    → IsInside (store_pages pages i addrs)
unfolding store_pages
store_pages-IsInside pages i [] room = tt
store_pages-IsInside pages i (a ∷ addrs) room =
    let next = set pages i (record { iov_base = a; iov_len = page_size }) in
    let same : length next ≡ length pages = length-set pages i _ in
    let inside : ltb i (length pages) ≡ true = lt→ltb i (length pages) (omega arith) in
    let rest = store_pages-IsInside next (i + 1) addrs (omega (arith, same)) in
    elim (Bool-cases (a == 0)) [ inl null ↦ rw (inside, null) tt | inr is ↦ rw (inside, is) rest ]

module _ (pd : DisPd) (mrs : Heap DisMr) (len va : ℕ) where
  reg_stored-Returns : (u : Umem) (s : Stored) → IsInside s → Returns (reg_stored pd mrs len va u s)
  unfolding reg_stored
  reg_stored-Returns u beyond inside = elim inside [ ]
  reg_stored-Returns u no_address inside = (_, refl)
  reg_stored-Returns u (all_stored pages) inside = (_, refl)

  reg_umem-Returns :
      (u : Option Umem) (found : Bool) → IsPinned u → Returns (reg_umem pd mrs len va u found)
  unfolding reg_umem
  reg_umem-Returns none found pinned = (_, refl)
  reg_umem-Returns (some u) found pinned = elim (Bool-cases (u32 u.umem_page_count == 0)) [
    | inl no_pages ↦ rw no_pages (_, refl)
    | inr pages ↦ elim (Bool-cases found) [
      | inl yes_found ↦
          let n = u32 u.umem_page_count in
          let size : length (replicate n zero_iovec) ≡ n = length-replicate n zero_iovec in
          rw (pages, yes_found)
            (reg_stored-Returns u _
              (store_pages-IsInside (replicate n zero_iovec) 0 u.addresses (omega (arith, size))))
      | inr not_found ↦ rw (pages, not_found) (_, refl)
    ]
  ]

  pub dis_reg_user_mr-Returns :
      (env : RegEnv) → IsPinned env.umem_get → Returns (dis_reg_user_mr pd mrs len va env)
  unfolding dis_reg_user_mr
  dis_reg_user_mr-Returns env pinned = elim (Bool-cases (leb dis_mr_max pd.mr_c)) [
    | inl none_left ↦ rw none_left (_, refl)
    | inr left ↦ elim (Bool-cases env.mr_alloc) [
      | inl found ↦ rw (left, found) (reg_umem-Returns env.umem_get env.pages_alloc pinned)
      | inr not_found ↦ rw (left, not_found) (_, refl)
    ]
  ]
