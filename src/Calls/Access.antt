-- ===== src/Calls/Access.antt =====
-- A call on an object, where it is there.
use dis_kverbs.Common.{ℕ, ◌≡◌, inl, inr, Option, some, List, AllSome, Option-cases}
use dis_kverbs.Kernel.{CircBuf, RoundUp}
use dis_kverbs.Memory.{load}
use dis_kverbs.Verbs.{Iovec, DisCq, DisWqType}
use dis_kverbs.Qp.{DisQp}
use dis_kverbs.Calls.{Objects, on_qp, on_cq}

module _ (c : CircBuf) (r : RoundUp) (kmalloc : ℕ → Option (ℕ × List Iovec))
    (msq_of : ℕ → DisWqType → ℕ) (ibpd : ℕ) (P : Objects → Type 0) where
  pub on_qp-AllSome :
      (o : Objects) (a : ℕ) (f : DisQp → Option Objects)
      → ((qp : DisQp) → load o.qps a ≡ some qp → AllSome P (f qp))
      → AllSome P (on_qp c r kmalloc msq_of ibpd o a f)
  unfolding on_qp
  on_qp-AllSome o a f step = elim (Option-cases (load o.qps a)) [
    | inl absent ↦ rw (absent, on_qp) tt
    | inr (qp, live) ↦ rw (live, on_qp) (step qp live)
  ]

  pub on_cq-AllSome :
      (o : Objects) (a : ℕ) (f : DisCq → Option Objects)
      → ((cq : DisCq) → load o.cqs a ≡ some cq → AllSome P (f cq))
      → AllSome P (on_cq c r kmalloc msq_of ibpd o a f)
  unfolding on_cq
  on_cq-AllSome o a f step = elim (Option-cases (load o.cqs a)) [
    | inl absent ↦ rw (absent, on_cq) tt
    | inr (cq, live) ↦ rw (live, on_cq) (step cq live)
  ]
