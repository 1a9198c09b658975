-- ===== src/Qp/Create/Effect.antt =====
-- What dis_create_qp and dis_destroy_qp do to the domain and to memory, on every path.
use dis_kverbs.Common.{
  ℕ, ◌+◌, ◌^◌, ◌<◌, ◌≡◌, ◌⊎◌, inl, inr, refl, arith, not, leb, Bool-cases, set, AllSome, if_cases,
  List, Option-cases,
}
use dis_kverbs.Events.{Event}
use dis_kverbs.Kernel.{RoundUp}
use dis_kverbs.Memory.{Heap, load, fresh, alloc, free}
use dis_kverbs.Pd.{DisPd}
use dis_kverbs.Verbs.{Ret, DisWq, DisWqType, dis_sq, dis_rq, dis_qp_max}
use dis_kverbs.Post.Build.{IsWq}
use dis_kverbs.Qp.{DisQp}
use dis_kverbs.Qp.Create.{
  QpResource, QpInitAttr, QpEnv, QpOut, created, dis_create_qp, new_qp, dis_qp_exit, dis_destroy_qp,
}
use dis_kverbs.Qp.Create.Valid.{new_wq-IsNew}

-- A pair at `a` that was made for the number `n`.
pub record IsMade (a n : ℕ) (qp : DisQp) : Type 0 where
  pub number : qp.qp_num ≡ n
  pub sq_ordered : IsWq qp.sq
  pub rq_ordered : IsWq qp.rq
  pub sq_owner : qp.sq.ibqp ≡ a
  pub rq_owner : qp.rq.ibqp ≡ a

-- Nothing changed, or a new pair was entered.
abbrev pub IsAdded : DisPd → Heap DisQp → QpOut → Type 0
IsAdded pd qps out =
    ((out.pd ≡ pd) × (out.qps ≡ qps))
    ⊎ ((qp : DisQp) × (pd.qp_c < dis_qp_max)
        × (out.pd ≡ record pd { qp_list = set pd.qp_list pd.qp_c (fresh qps); qp_c = pd.qp_c + 1 })
        × (out.qps ≡ alloc qps qp)
        × IsMade (fresh qps) pd.qp_c qp)

module _ (r : RoundUp) (msq_of : ℕ → DisWqType → ℕ) (ibpd : ℕ) where
  new_qp-IsMade :
      (pd : DisPd) (a : ℕ) (attr : QpInitAttr)
      → attr.max_send_wr < 2 ^ 31
      → attr.max_recv_wr < 2 ^ 31
      → IsMade a pd.qp_c (new_qp r msq_of ibpd pd a attr)
  unfolding new_qp
  new_qp-IsMade pd a attr few_send few_recv =
      let sq =
        new_wq-IsNew r a (msq_of a dis_sq) attr.send_cq attr.max_send_sge attr.max_inline_data
          attr.max_send_wr dis_sq few_send in
      let rq =
        new_wq-IsNew r a (msq_of a dis_rq) attr.recv_cq attr.max_recv_sge attr.max_inline_data
          attr.max_recv_wr dis_rq few_recv in
      record {
        number = refl;
        sq_ordered = sq.ordered;
        rq_ordered = rq.ordered;
        sq_owner = refl;
        rq_owner = refl;
      }

  pub dis_create_qp-IsAdded :
      (pd : DisPd) (qps : Heap DisQp) (attr : QpInitAttr) (env : QpEnv)
      → attr.max_send_wr < 2 ^ 31
      → attr.max_recv_wr < 2 ^ 31
      → IsAdded pd qps (dis_create_qp r msq_of ibpd pd qps attr env)
  unfolding dis_create_qp
  dis_create_qp-IsAdded pd qps attr env few_send few_recv =
      elim (Bool-cases (leb dis_qp_max pd.qp_c)) [
        | inl none_left ↦ rw none_left (inl (refl, refl))
        | inr left ↦
            let room : pd.qp_c < dis_qp_max = ground arith in
            let P = IsAdded pd qps in
            let made : P (created r msq_of ibpd pd qps attr) = inr (
              new_qp r msq_of ibpd pd (fresh qps) attr,
              room,
              refl,
              refl,
              new_qp-IsMade pd (fresh qps) attr few_send few_recv,
            ) in
            rw left (
              if_cases P (not env.qp_alloc) (inl (refl, refl)) (
                if_cases P (not env.sq_alloc) (inl (refl, refl))
                  (if_cases P (not env.rq_alloc) (inl (refl, refl)) made)))
      ]

pub dis_destroy_qp-frees :
    (stopped : DisWqType → DisWq → DisWq) (qps : Heap DisQp) (a : ℕ)
    → AllSome
        (λ (out : Ret × Heap DisQp × List (Event QpResource)). out.1 ≡ free qps a)
        (dis_destroy_qp stopped qps a)
unfolding dis_destroy_qp
dis_destroy_qp-frees stopped qps a = elim (Option-cases (load qps a)) [
  | inl absent ↦ rw (absent, dis_destroy_qp) tt
  | inr (qp, live) ↦ elim (Option-cases (dis_qp_exit (stopped dis_rq) qp.rq)) [
    | inl endless ↦ rw (live, dis_destroy_qp, endless) tt
    | inr (rq, ended) ↦ elim (Option-cases (dis_qp_exit (stopped dis_sq) qp.sq)) [
      | inl endless ↦ rw (live, dis_destroy_qp, ended, endless) tt
      | inr (sq, ended') ↦ rw (live, dis_destroy_qp, ended, ended') refl
    ]
  ]
]
