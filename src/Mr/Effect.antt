-- ===== src/Mr/Effect.antt =====
-- What the calls on memory regions do to the table and to memory, on every path.
use dis_kverbs.Common.{
  ℕ, ◌<◌, ◌≡◌, ◌⊎◌, inl, inr, refl, arith, Bool, true, leb, Bool-cases, List, Option, none, some,
  ◌==◌, AllSome, Option-cases,
}
use dis_kverbs.Events.{Event}
use dis_kverbs.Memory.{Heap, fresh, alloc, free, load}
use dis_kverbs.Pd.{DisPd}
use dis_kverbs.Verbs.{Ret, DisMr, dis_mr_max, u32}
use dis_kverbs.Mr.{
  zero_mr, user_mr, MrOut, RegEnv, Umem, Stored, beyond, no_address, all_stored, enter, keyed,
  reg_stored, reg_umem, dis_get_dma_mr, dis_reg_user_mr, dis_dereg_mr, Resource,
}

-- Nothing changed, or a new region was entered.
abbrev pub IsEffect : DisPd → Heap DisMr → MrOut → Type 0
IsEffect pd mrs out =
    ((out.pd ≡ pd) × (out.mrs ≡ mrs))
    ⊎ ((mr : DisMr) × (pd.mr_c < dis_mr_max)
        × (out.pd ≡ enter pd (fresh mrs))
        × (out.mrs ≡ alloc mrs (keyed pd mr)))

pub dis_get_dma_mr-IsEffect :
    (pd : DisPd) (mrs : Heap DisMr) (found : Bool) → IsEffect pd mrs (dis_get_dma_mr pd mrs found)
unfolding dis_get_dma_mr
dis_get_dma_mr-IsEffect pd mrs found = elim (Bool-cases (leb dis_mr_max pd.mr_c)) [
  | inl none_left ↦ rw none_left (inl (refl, refl))
  | inr left ↦ elim (Bool-cases found) [
    | inl yes_found ↦
        let room : pd.mr_c < dis_mr_max = ground arith in
        rw (left, yes_found) (inr (record zero_mr { is_dma = true }, room, refl, refl))
    | inr not_found ↦ rw (left, not_found) (inl (refl, refl))
  ]
]

module _ (pd : DisPd) (mrs : Heap DisMr) (len va : ℕ) where
  stored-IsEffect :
      (u : Umem) (s : Stored)
      → pd.mr_c < dis_mr_max
      → AllSome (IsEffect pd mrs) (reg_stored pd mrs len va u s)
  unfolding reg_stored
  stored-IsEffect u beyond room = tt
  stored-IsEffect u no_address room = inl (refl, refl)
  stored-IsEffect u (all_stored pages) room = inr (user_mr u len va pages, room, refl, refl)

  umem-IsEffect :
      (u : Option Umem) (found : Bool)
      → pd.mr_c < dis_mr_max
      → AllSome (IsEffect pd mrs) (reg_umem pd mrs len va u found)
  unfolding reg_umem
  umem-IsEffect none found room = inl (refl, refl)
  umem-IsEffect (some u) found room = elim (Bool-cases (u32 u.umem_page_count == 0)) [
    | inl no_pages ↦ rw no_pages (inl (refl, refl))
    | inr pages ↦ elim (Bool-cases found) [
      | inl yes_found ↦ rw (pages, yes_found) (stored-IsEffect u _ room)
      | inr not_found ↦ rw (pages, not_found) (inl (refl, refl))
    ]
  ]

  pub dis_reg_user_mr-IsEffect :
      (env : RegEnv) → AllSome (IsEffect pd mrs) (dis_reg_user_mr pd mrs len va env)
  unfolding dis_reg_user_mr
  dis_reg_user_mr-IsEffect env = elim (Bool-cases (leb dis_mr_max pd.mr_c)) [
    | inl none_left ↦ rw none_left (inl (refl, refl))
    | inr left ↦ elim (Bool-cases env.mr_alloc) [
      | inl found ↦
          let room : pd.mr_c < dis_mr_max = ground arith in
          rw (left, found) (umem-IsEffect env.umem_get env.pages_alloc room)
      | inr not_found ↦ rw (left, not_found) (inl (refl, refl))
    ]
  ]

pub dis_dereg_mr-frees :
    (mrs : Heap DisMr) (a : ℕ)
    → AllSome
        (λ (out : Ret × Heap DisMr × List (Event Resource)). out.1 ≡ free mrs a)
        (dis_dereg_mr mrs a)
unfolding dis_dereg_mr
dis_dereg_mr-frees mrs a = elim (Option-cases (load mrs a)) [
  | inl absent ↦ rw (absent, dis_dereg_mr) tt
  | inr (mr, live) ↦ rw (live, dis_dereg_mr) refl
]
