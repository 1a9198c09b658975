-- ===== src/Mr/Leaks.antt =====
-- What a registration holds in the end.
use dis_kverbs.Common.{
  ℕ, ◌≡◌, ◌⊎◌, inl, inr, refl, Bool, true, false, Option, none, some, List, [], ◌∷◌, ◌++◌, arith,
  ◌==◌, Bool-cases, leb, replicate, if◌then◌else◌,
}
use mathlib.Core.Option
use dis_kverbs.Events.{Event, acquire, release, replay}
use dis_kverbs.Memory.{Heap, load, fresh, load-alloc_self}
use dis_kverbs.Pd.{DisPd}
use dis_kverbs.Verbs.{Ret, DisMr, zero_iovec, dis_mr_max, u32}
use dis_kverbs.Mr.{
  Resource, mr_memory, pages_memory, pinned, einval, registered, MrOut, RegEnv, Umem,
  dis_reg_user_mr, reg_umem, reg_stored, Stored, store_pages, dis_dereg_mr, beyond, no_address,
  all_stored, failed,
}

abbrev same : Resource → Resource → Bool
same mr_memory mr_memory = true
same pages_memory pages_memory = true
same (pinned a) (pinned b) = a == b
same _ _ = false

eq_self : (n : ℕ) → (n == n) ≡ true
eq_self n = ground arith

-- What a registration may leave behind: a failed one nothing, and the domain and the regions as they
-- were; a successful one what dis_dereg_mr releases.
abbrev pub Settled : DisPd → Heap DisMr → MrOut → Type 0
Settled pd mrs out =
    ((out.result ≡ einval)
      × (replay same [] out.events ≡ some [])
      × (out.pd ≡ pd)
      × (out.mrs ≡ mrs))
    ⊎ ((a : ℕ) × (mr : DisMr) × (out.result ≡ registered a)
        × (load out.mrs a ≡ some mr)
        × (dereg : List (Event Resource)) × (Option.map
              (λ (r : Ret × Heap DisMr × List (Event Resource)). r.2) (dis_dereg_mr out.mrs a)
            ≡ some dereg)
        × (replay same [] (out.events ++ dereg) ≡ some []))

abbrev events_of :
    Option (Ret × Heap DisMr × List (Event Resource)) → Option (List (Event Resource))
events_of = Option.map (λ (r : Ret × Heap DisMr × List (Event Resource)). r.2)

dereg_events :
    (mrs : Heap DisMr) (a : ℕ) {mr : DisMr}
    → load mrs a ≡ some mr
    → mr.is_dma ≡ false
    → events_of (dis_dereg_mr mrs a)
      ≡ some (release pages_memory ∷ release (pinned mr.ibumem) ∷ release mr_memory ∷ [])
unfolding dis_dereg_mr
dereg_events mrs a live paged = ground arith

module _ (pd : DisPd) (mrs : Heap DisMr) (len va : ℕ) where
  abbrev AllSettled : Option MrOut → Type 0
  AllSettled none = Unit
  AllSettled (some out) = Settled pd mrs out

  reg_stored_settled : (u : Umem) (s : Stored) → AllSettled (reg_stored pd mrs len va u s)
  unfolding reg_stored replay
  reg_stored_settled u beyond = tt
  reg_stored_settled u no_address = inl (refl, rw (eq_self u.umem), refl, refl)
  reg_stored_settled u (all_stored pages) = inr (
    fresh mrs,
    _,
    refl,
    load-alloc_self mrs _,
    _,
    dereg_events _ (fresh mrs) (load-alloc_self mrs _) refl,
    rw (eq_self u.umem),
  )

  reg_umem_settled : (u : Option Umem) (alloc : Bool) → AllSettled (reg_umem pd mrs len va u alloc)
  unfolding reg_umem replay
  reg_umem_settled none alloc = inl (refl, refl, refl, refl)
  reg_umem_settled (some u) alloc = elim (Bool-cases (u32 u.umem_page_count == 0)) [
    | inl no_pages ↦ rw no_pages (inl (refl, rw (eq_self u.umem), refl, refl))
    | inr pages ↦ rw pages (memory alloc)
  ]
    where
      memory :
          (alloc : Bool)
          → AllSettled (
              if alloc
              then reg_stored pd mrs len va u
                  (store_pages (replicate (u32 u.umem_page_count) zero_iovec) 0 u.addresses)
              else some (
                  failed pd mrs len va (
                    acquire mr_memory
                    ∷ acquire (pinned u.umem)
                    ∷ release (pinned u.umem)
                    ∷ release mr_memory
                    ∷ [])))
      memory true = reg_stored_settled u _
      memory false = inl (refl, rw (eq_self u.umem), refl, refl)

  reg_user_mr_settled : (env : RegEnv) → AllSettled (dis_reg_user_mr pd mrs len va env)
  unfolding dis_reg_user_mr replay
  reg_user_mr_settled env = elim (Bool-cases (leb dis_mr_max pd.mr_c)) [
    | inl full ↦ rw full (inl (refl, refl, refl, refl))
    | inr room ↦ rw room (found env.mr_alloc)
  ]
    where
      found :
          (b : Bool)
          → AllSettled (
              if b
              then reg_umem pd mrs len va env.umem_get env.pages_alloc
              else some (failed pd mrs len va []))
      found true = reg_umem_settled env.umem_get env.pages_alloc
      found false = inl (refl, refl, refl, refl)

  -- A registration of user memory that returns an error has released all that it acquired, the
  -- latest first, and leaves the domain and the regions as they were. One that succeeds returns a
  -- live region, and deregistering that region releases all that the registration acquired, the
  -- latest first.
  pub dis_reg_user_mr-Settled :
      (env : RegEnv) (out : MrOut)
      → dis_reg_user_mr pd mrs len va env ≡ some out
      → Settled pd mrs out
  dis_reg_user_mr-Settled env out e = rw e at (reg_user_mr_settled env)
