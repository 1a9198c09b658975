-- ===== src/Pd.antt =====
-- `struct dis_pd` of driver/dis_verbs.h, and dis_alloc_pd and dis_dealloc_pd of driver/dis_verbs.c.
use dis_kverbs.Common.{ℕ, List}
use dis_kverbs.Verbs.{Ret, done, dis_qp_ini, dis_mr_ini}

-- The two arrays hold pointers, 0 for NULL.
pub record DisPd : Type 0 where
  pub dev : ℕ
  pub qp_list : List ℕ
  pub mr_list : List ℕ
  pub qp_c : ℕ
  pub mr_c : ℕ

unfoldable pub dis_alloc_pd : DisPd → ℕ → Ret × DisPd
dis_alloc_pd pd dev = (done, record pd { dev = dev; qp_c = dis_qp_ini; mr_c = dis_mr_ini })

unfoldable pub dis_dealloc_pd : DisPd → DisPd
dis_dealloc_pd pd = pd
