-- ===== src/Qp/Create/Valid.antt =====
-- A new queue pair is ready for posting, and the numbers that pairs get.
use dis_kverbs.Common.{
  ℕ, ◌+◌, ◌*◌, ◌^◌, ◌<◌, ◌≡◌, arith, [], length, length-replicate, replicate, get_or-replicate,
  true, false, refl, ap, some, leb, get_elem?, get_elem?-set_self,
}
use dis_kverbs.Common.Mask.{used_self}
use dis_kverbs.Common.Ring.{ring_contents_empty}
use dis_kverbs.Kernel.{RoundUp}
use dis_kverbs.Circ.{roundup-IsSize, IsSize-IsRing}
use dis_kverbs.Memory.{Heap, load, fresh, load-alloc_self}
use dis_kverbs.Pd.{DisPd}
use dis_kverbs.Verbs.{
  DisWqe, DisWq, DisWqType, dis_sq, dis_rq, wq_uninitialized, zero_wqe, dis_qp_max, u32,
}
use dis_kverbs.Post.Build.{IsWq, wq_contents}
use dis_kverbs.Qp.{DisQp}
use dis_kverbs.Qp.Create.{QpInitAttr, new_wq, dis_create_qp, new_qp}

-- A work queue that was made for `max_wr` requests.
pub record IsNew (wq : DisWq) (max_wr : ℕ) : Type 0 where
  pub ordered : IsWq wq
  pub empty : wq_contents wq ≡ []
  pub enough : max_wr < wq.wqe_max
  pub few : wq.wqe_max < 2 * max_wr + 2
  pub not_started : wq.wq_state ≡ wq_uninitialized

pub new_wq-IsNew :
    (r : RoundUp) (qp msq cq sge_max inline_max max_wr : ℕ) (type : DisWqType)
    → max_wr < 2 ^ 31
    → IsNew
        (new_wq qp msq cq sge_max inline_max (u32 (r.roundup_pow_of_two (u32 (max_wr + 1)))) type)
        max_wr
new_wq-IsNew r qp msq cq sge_max inline_max max_wr type small =
    let size = roundup-IsSize r (max_wr + 1) (omega arith) (omega arith) in
    let n = u32 (r.roundup_pow_of_two (u32 (max_wr + 1))) in
    record {
      ordered = record {
        ring = rw (length-replicate n zero_wqe) (IsSize-IsRing size (omega arith));
        arrays =
            λ i lt. ap (λ (w : DisWqe). length w.page_map_static) (get_or-replicate n zero_wqe i);
      };
      empty = ring_contents_empty zero_wqe (replicate n zero_wqe) n 0 0 (used_self n 0);
      enough = omega (arith, size.enough);
      few = omega (arith, size.few);
      not_started = refl;
    }

-- With a number left, the memory, and fewer than 2^31 requests asked for, creating a queue pair returns
-- a live pair with the domain's next number. Both queues are in order, empty and not started, with
-- more slots than requests asked for and fewer than twice as many plus two, and name the pair and
-- its completion queues; the domain's table names the pair under its number.
pub dis_create_qp_lem :
    (r : RoundUp) (msq_of : ℕ → DisWqType → ℕ) (ibpd : ℕ) (pd : DisPd) (qps : Heap DisQp)
    (attr : QpInitAttr)
    → pd.qp_c < dis_qp_max
    → length pd.qp_list ≡ dis_qp_max
    → attr.max_send_wr < 2 ^ 31
    → attr.max_recv_wr < 2 ^ 31
    → let out =
        dis_create_qp r msq_of ibpd pd qps attr
          (record { qp_alloc = true; sq_alloc = true; rq_alloc = true }) in
      (qp : DisQp) × (load out.qps out.result ≡ some qp)
      × (qp.qp_num ≡ pd.qp_c)
      × (out.pd.qp_c ≡ pd.qp_c + 1)
      × (get_elem? out.pd.qp_list pd.qp_c ≡ some out.result)
      × IsNew qp.sq attr.max_send_wr
      × IsNew qp.rq attr.max_recv_wr
      × (qp.sq.ibqp ≡ out.result)
      × (qp.rq.ibqp ≡ out.result)
      × (qp.sq.cq ≡ attr.send_cq)
      × (qp.rq.cq ≡ attr.recv_cq)
unfolding dis_create_qp new_qp
dis_create_qp_lem r msq_of ibpd pd qps attr left table few_send few_recv =
    let room : leb dis_qp_max pd.qp_c ≡ false = ground arith in
    rw room (
      _,
      load-alloc_self qps (new_qp r msq_of ibpd pd (fresh qps) attr),
      refl,
      refl,
      get_elem?-set_self pd.qp_list pd.qp_c (fresh qps) (omega (arith, table)),
      new_wq-IsNew r _ _ _ _ _ attr.max_send_wr dis_sq few_send,
      new_wq-IsNew r _ _ _ _ _ attr.max_recv_wr dis_rq few_recv,
      refl,
      refl,
      refl,
      refl,
    )
