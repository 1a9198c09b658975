-- ===== src/Verbs/Cast.antt =====
-- The accessors of driver/dis_verbs.h, from an ib_ structure of the kernel to the structure of the driver
-- that it stands in.
--
-- In each structure of the driver the ib_ structure is the first member, so that its offset is 0. A
-- user context and an address handle hold the device beside it.
use dis_kverbs.Common.{ℕ, ◌+◌, ◌-◌, ◌≤◌, ◌≡◌, arith, ◌==◌, if◌then◌else◌, Bool-cases, inl, inr}

-- `struct dis_ucontext` and `struct dis_ah`
pub record DisUcontext : Type 0 where
  pub dev : ℕ

pub record DisAh : Type 0 where
  pub dev : ℕ

-- container_of of the Linux kernel, on a member's address and its offset: the address that is the
-- offset below it.
pub record ContainerOf : Type 0 where
  pub container_of : ℕ → ℕ → ℕ
  pub container_of-add : (p offset : ℕ) → offset ≤ p → container_of p offset + offset ≡ p

module _ (k : ContainerOf) where
  pub to_dis_dev : ℕ → ℕ
  to_dis_dev ibdev = if ibdev == 0 then 0 else k.container_of ibdev 0

  pub to_dis_pd : ℕ → ℕ
  to_dis_pd ibpd = if ibpd == 0 then 0 else k.container_of ibpd 0

  pub to_dis_ah : ℕ → ℕ
  to_dis_ah ibah = if ibah == 0 then 0 else k.container_of ibah 0

  pub to_dis_qp : ℕ → ℕ
  to_dis_qp ibqp = if ibqp == 0 then 0 else k.container_of ibqp 0

  pub to_dis_cq : ℕ → ℕ
  to_dis_cq ibcq = if ibcq == 0 then 0 else k.container_of ibcq 0

  pub to_dis_srq : ℕ → ℕ
  to_dis_srq ibsrq = if ibsrq == 0 then 0 else k.container_of ibsrq 0

  pub to_dis_mr : ℕ → ℕ
  to_dis_mr ibmr = if ibmr == 0 then 0 else k.container_of ibmr 0

  pub to_dis_ucontext : ℕ → ℕ
  to_dis_ucontext ibucontext = if ibucontext == 0 then 0 else k.container_of ibucontext 0

  container-same : (p : ℕ) → (if p == 0 then 0 else k.container_of p 0) ≡ p
  container-same p = elim (Bool-cases (p == 0)) [
    | inl null ↦ rw null (ground arith)
    | inr there ↦ rw there (omega (arith, k.container_of-add p 0 (omega arith)))
  ]

  -- A pointer to an object of the kernel is the pointer to the driver's object, and NULL is NULL: the
  -- other modules have one number for both.
  pub casts-same :
      (p : ℕ)
      → (to_dis_dev p ≡ p)
        × (to_dis_pd p ≡ p)
        × (to_dis_ah p ≡ p)
        × (to_dis_qp p ≡ p)
        × (to_dis_cq p ≡ p)
        × (to_dis_srq p ≡ p)
        × (to_dis_mr p ≡ p)
        × (to_dis_ucontext p ≡ p)
  unfolding to_dis_dev to_dis_pd to_dis_ah to_dis_qp to_dis_cq to_dis_srq to_dis_mr to_dis_ucontext
  casts-same p = let e = container-same p in (e, e, e, e, e, e, e, e)

-- Numbers without wrap-around.
abbrev plain_container : ContainerOf
plain_container = record {
  container_of = λ p offset. p - offset;
  container_of-add = λ p offset inside. omega arith;
}
