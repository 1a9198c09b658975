-- ===== src/Qp/Create.antt =====
-- dis_create_qp and dis_destroy_qp of driver/dis_verbs.c. What kzalloc answers is an argument, and what
-- is acquired and released is recorded in order.
pub mod Effect
pub mod Total
pub mod Settled
pub mod Valid
use dis_kverbs.Common.{
  ℕ, ◌+◌, Bool, not, List, [], ◌∷◌, Option, none, some, leb, set, if◌then◌else◌, replicate,
}
use dis_kverbs.Events.{Event, acquire, release}
use dis_kverbs.Kernel.{RoundUp}
use dis_kverbs.Memory.{Heap, load, fresh, alloc, free}
use dis_kverbs.Pd.{DisPd}
use dis_kverbs.Verbs.{
  Ret, done, DisWq, DisWqType, dis_sq, dis_rq, wq_empty, wq_uninitialized, wq_exited, zero_wqe,
  dis_qp_max, u32,
}
use dis_kverbs.Qp.{DisQp, qps_reset}

pub data QpResource : Type 0 where
  qp_memory sq_memory rq_memory : QpResource

-- `struct ib_qp_init_attr`, the fields that are read.
pub record QpInitAttr : Type 0 where
  pub send_cq : ℕ
  pub recv_cq : ℕ
  pub srq : ℕ
  pub event_handler : ℕ
  pub sq_sig_type : ℕ
  pub qp_type : ℕ
  pub max_send_wr : ℕ
  pub max_recv_wr : ℕ
  pub max_send_sge : ℕ
  pub max_recv_sge : ℕ
  pub max_inline_data : ℕ

-- Whether kzalloc finds memory, for the queue pair and for its two buffers.
pub record QpEnv : Type 0 where
  pub qp_alloc : Bool
  pub sq_alloc : Bool
  pub rq_alloc : Bool

-- The queue pair's address, NULL where it was not created, the domain, the queue pairs in memory, and
-- what happened.
pub record QpOut : Type 0 where
  pub result : ℕ
  pub pd : DisPd
  pub qps : Heap DisQp
  pub events : List (Event QpResource)

-- ib_mtu_enum_to_int(IB_MTU_4096)
abbrev pub mtu_4096 : ℕ
mtu_4096 = 4096

-- A work queue of the new pair at `qp`, its other fields as kzalloc leaves them.
abbrev pub new_wq : ℕ → ℕ → ℕ → ℕ → ℕ → ℕ → DisWqType → DisWq
new_wq qp sci_msq cq sge_max inline_max wqe_max wq_type = record {
  cq = cq;
  ibqp = qp;
  buf = replicate wqe_max zero_wqe;
  head = 0;
  tail = 0;
  thread = 0;
  sci_msq = sci_msq;
  wq_flag = wq_empty;
  wq_state = wq_uninitialized;
  wq_type = wq_type;
  wqe_max = wqe_max;
  sge_max = sge_max;
  inline_max = inline_max;
  mtu = 0;
  l_qpn = 0;
  r_qpn = 0;
}

-- `msq_of` says where the message queues of the pair at an address lie; `ibpd` is the domain's address.
module _ (r : RoundUp) (msq_of : ℕ → DisWqType → ℕ) (ibpd : ℕ) where
  unfoldable pub new_qp : DisPd → ℕ → QpInitAttr → DisQp
  new_qp pd qp attr = record {
    pd = ibpd;
    send_cq = attr.send_cq;
    recv_cq = attr.recv_cq;
    srq = attr.srq;
    qp_num = pd.qp_c;
    dev = pd.dev;
    sq_sig_type = attr.sq_sig_type;
    qp_type = attr.qp_type;
    event_handler = attr.event_handler;
    sq =
        new_wq qp (msq_of qp dis_sq) attr.send_cq attr.max_send_sge attr.max_inline_data
          (u32 (r.roundup_pow_of_two (u32 (attr.max_send_wr + 1)))) dis_sq;
    rq =
        new_wq qp (msq_of qp dis_rq) attr.recv_cq attr.max_recv_sge attr.max_inline_data
          (u32 (r.roundup_pow_of_two (u32 (attr.max_recv_wr + 1)))) dis_rq;
    state = qps_reset;
    l_qpn = pd.qp_c;
    r_qpn = 0;
    mtu = mtu_4096;
  }

  abbrev pub null : DisPd → Heap DisQp → List (Event QpResource) → QpOut
  null pd qps events = record { result = 0; pd = pd; qps = qps; events = events }

  -- All memory was found: the pair is registered with the domain.
  abbrev pub created : DisPd → Heap DisQp → QpInitAttr → QpOut
  created pd qps attr = record {
    result = fresh qps;
    pd = record pd { qp_list = set pd.qp_list pd.qp_c (fresh qps); qp_c = pd.qp_c + 1 };
    qps = alloc qps (new_qp pd (fresh qps) attr);
    events = acquire qp_memory ∷ acquire sq_memory ∷ acquire rq_memory ∷ [];
  }

  unfoldable pub dis_create_qp : DisPd → Heap DisQp → QpInitAttr → QpEnv → QpOut
  dis_create_qp pd qps attr env =
      if leb dis_qp_max pd.qp_c
      then null pd qps []
      else if not env.qp_alloc
      then null pd qps []
      else if not env.sq_alloc
      then null pd qps (acquire qp_memory ∷ release qp_memory ∷ [])
      else if not env.rq_alloc
      then null pd qps
          (acquire qp_memory ∷ acquire sq_memory ∷ release sq_memory ∷ release qp_memory ∷ [])
      else created pd qps attr

-- dis_qp_exit; `stopped` is what the worker's thread makes of the queue once kthread_stop is called. The
-- loop that waits for the state EXITED does not end where the thread left another one: `none`.
unfoldable pub dis_qp_exit : (DisWq → DisWq) → DisWq → Option DisWq
dis_qp_exit stopped wq = elim wq.wq_state [
  | wq_uninitialized ↦ some wq
  | wq_exited ↦ some wq
  | _ ↦ elim (stopped wq).wq_state [ wq_exited ↦ some (stopped wq) | _ ↦ none ]
]

-- `none` is a pair that was freed before, or a wait without end.
unfoldable pub dis_destroy_qp :
    (DisWqType → DisWq → DisWq)
    → Heap DisQp
    → ℕ
    → Option (Ret × Heap DisQp × List (Event QpResource))
dis_destroy_qp stopped qps a = elim (load qps a) [
  | none ↦ none
  | some qp ↦ elim (dis_qp_exit (stopped dis_rq) qp.rq) [
    | none ↦ none
    | some rq ↦ elim (dis_qp_exit (stopped dis_sq) qp.sq) [
      | none ↦ none
      | some sq ↦
          some (done, free qps a, release rq_memory ∷ release sq_memory ∷ release qp_memory ∷ [])
    ]
  ]
]
