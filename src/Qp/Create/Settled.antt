-- ===== src/Qp/Create/Settled.antt =====
-- What creating a queue pair holds in the end.
use dis_kverbs.Common.{
  ℕ, ◌≡◌, ◌⊎◌, inl, inr, refl, Bool, true, not, leb, if_cases, false, some, List, [], ◌∷◌, ◌++◌,
}
use dis_kverbs.Events.{Event, release, replay}
use dis_kverbs.Kernel.{RoundUp}
use dis_kverbs.Memory.{Heap, load, fresh, free, load-alloc_self}
use dis_kverbs.Pd.{DisPd}
use dis_kverbs.Verbs.{Ret, done, DisWq, DisWqType, dis_qp_max}
use dis_kverbs.Qp.{DisQp}
use dis_kverbs.Qp.Create.{
  QpResource, qp_memory, sq_memory, rq_memory, QpInitAttr, QpEnv, QpOut, dis_create_qp, new_qp,
  created, dis_qp_exit, dis_destroy_qp,
}

abbrev same : QpResource → QpResource → Bool
same qp_memory qp_memory = true
same sq_memory sq_memory = true
same rq_memory rq_memory = true
same _ _ = false

-- What creating a pair may leave behind: NULL, nothing held and nothing changed; or a live pair, and
-- what dis_destroy_qp releases.
abbrev pub Settled : (DisWqType → DisWq → DisWq) → DisPd → Heap DisQp → QpOut → Type 0
Settled stopped pd qps out =
    ((out.result ≡ 0) × (replay same [] out.events ≡ some []) × (out.pd ≡ pd) × (out.qps ≡ qps))
    ⊎ ((qp : DisQp) × (load out.qps out.result ≡ some qp)
        × (end : Ret × Heap DisQp × List (Event QpResource)) × (dis_destroy_qp stopped out.qps
              out.result
            ≡ some end)
        × (replay same [] (out.events ++ end.2) ≡ some []))

destroy_new :
    (stopped : DisWqType → DisWq → DisWq) (r : RoundUp) (msq_of : ℕ → DisWqType → ℕ) (ibpd : ℕ)
    (pd : DisPd) (qps : Heap DisQp) (a b : ℕ) (attr : QpInitAttr)
    → load qps a ≡ some (new_qp r msq_of ibpd pd b attr)
    → dis_destroy_qp stopped qps a
      ≡ some (done, free qps a, release rq_memory ∷ release sq_memory ∷ release qp_memory ∷ [])
unfolding dis_destroy_qp dis_qp_exit new_qp
destroy_new stopped r msq_of ibpd pd qps a b attr live = rw (live, dis_destroy_qp) refl

-- Creating a queue pair either returns NULL, and then all that was acquired was released, the latest
-- first, and the domain and the queue pairs are as they were; or it returns a live pair, and
-- destroying that pair at once returns and releases all that was acquired, the latest first.
pub dis_create_qp-Settled :
    (stopped : DisWqType → DisWq → DisWq) (r : RoundUp) (msq_of : ℕ → DisWqType → ℕ) (ibpd : ℕ)
    (pd : DisPd) (qps : Heap DisQp) (attr : QpInitAttr) (env : QpEnv)
    → Settled stopped pd qps (dis_create_qp r msq_of ibpd pd qps attr env)
unfolding dis_create_qp replay
dis_create_qp-Settled stopped r msq_of ibpd pd qps attr env =
    let live = load-alloc_self qps (new_qp r msq_of ibpd pd (fresh qps) attr) in
    let made : Settled stopped pd qps (created r msq_of ibpd pd qps attr) = inr (
      _,
      live,
      _,
      destroy_new stopped r msq_of ibpd pd _ (fresh qps) (fresh qps) attr live,
      refl,
    ) in
    let P = Settled stopped pd qps in
    if_cases P (leb dis_qp_max pd.qp_c) (inl (refl, refl, refl, refl)) (
      if_cases P (not env.qp_alloc) (inl (refl, refl, refl, refl)) (
        if_cases P (not env.sq_alloc) (inl (refl, refl, refl, refl))
          (if_cases P (not env.rq_alloc) (inl (refl, refl, refl, refl)) made)))
