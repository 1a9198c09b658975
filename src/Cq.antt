-- ===== src/Cq.antt =====
-- The completion queue: dis_create_cq, dis_poll_cq, dis_req_notify_cq and dis_destroy_cq of
-- driver/dis_verbs.c, and the two functions of driver/dis_qp.c by which a worker posts to it.
-- The head moves only under `cqe_lock`: a posting is one step of the model.
pub mod Inv
pub mod Queue
pub mod Refine
pub mod Trace
pub mod Interleave
mod Tests
use dis_kverbs.Common.{
  ℕ, zero, suc, ◌+◌, ◌<◌, Bool, true, false, List, [], ◌∷◌, ltb, if◌then◌else◌, get_or, set,
  replicate,
}
use dis_kverbs.Kernel.{CircBuf, RoundUp}
use dis_kverbs.Verbs.{
  Ret, done, fail, WcStatus, WcOpcode, DisWqe, DisCqe, DisCq, zero_cqe, u16, u32, circ_next,
}

-- `struct ib_wc`, the fields that the driver sets.
pub record IbWc : Type 0 where
  pub wr_id : ℕ
  pub status : WcStatus
  pub opcode : WcOpcode
  pub byte_len : ℕ
  pub qp : ℕ

-- The entry that a posting writes: `byte_len` is narrowed to 16 bits.
unfoldable pub cqe_of : DisWqe → WcStatus → DisCqe
cqe_of wqe wq_status = record {
  ibqp = wqe.ibqp;
  wr_id = wqe.wr_id;
  status = wq_status;
  byte_len = u16 wqe.byte_len;
  opcode = wqe.opcode;
}

-- The work completion that is made of an entry.
unfoldable pub wc_of : DisCqe → IbWc
wc_of cqe = record {
  wr_id = cqe.wr_id;
  status = cqe.status;
  opcode = cqe.opcode;
  byte_len = cqe.byte_len;
  qp = cqe.ibqp;
}

-- `init_attr->cqe` is the argument `cqe`; `alloc` says whether kzalloc finds memory. The indices
-- are those that the object is handed over with.
unfoldable pub dis_create_cq : RoundUp → DisCq → ℕ → Bool → Ret × DisCq
dis_create_cq r cq cqe alloc =
    let cqe_max = u32 (r.roundup_pow_of_two (u32 (cqe + 1))) in
    if alloc
    then (done, record cq { cqe_max = cqe_max; ib_cqe = cqe_max; buf = replicate cqe_max zero_cqe })
    else (fail 42, record cq { cqe_max = cqe_max; ib_cqe = cqe_max; buf = [] })

pub dis_destroy_cq : DisCq → DisCq
dis_destroy_cq cq = record cq { buf = [] }

pub dis_req_notify_cq : DisCq → Ret × DisCq
dis_req_notify_cq cq = (fail 42, cq)

module _ (c : CircBuf) where
  pub dis_wq_post_sqe_cqe : DisCq → DisWqe → WcStatus → Ret × DisCq
  unfolding cqe_of
  dis_wq_post_sqe_cqe cq wqe wq_status =
      if ltb (c.circ_space cq.head cq.tail cq.cqe_max) 1 then (fail 42, cq) else (
        done,
        record cq {
          buf = set cq.buf cq.head (cqe_of wqe wq_status);
          head = circ_next cq.head cq.cqe_max;
        },
      )

  unfoldable pub dis_wq_post_rqe_cqe : DisCq → DisWqe → WcStatus → Ret × DisCq
  unfolding cqe_of
  dis_wq_post_rqe_cqe cq wqe wq_status =
      if ltb (c.circ_space cq.head cq.tail cq.cqe_max) 1 then (fail 42, cq) else (
        done,
        record cq {
          buf = set cq.buf cq.head (cqe_of wqe wq_status);
          head = circ_next cq.head cq.cqe_max;
        },
      )

  -- The loop with `num_wc` rounds left: the completions written, `wc_count` of them, and the queue.
  unfoldable pub dis_poll_cq : DisCq → ℕ → List IbWc × DisCq
  unfolding wc_of
  dis_poll_cq cq zero = ([], cq)
  dis_poll_cq cq (suc n) =
      let rest = dis_poll_cq (record cq { tail = circ_next cq.tail cq.cqe_max }) n in
      if ltb (c.circ_cnt cq.head cq.tail cq.cqe_max) 1
      then ([], cq)
      else (wc_of (get_or cq.buf cq.tail zero_cqe) ∷ rest.0, rest.1)
