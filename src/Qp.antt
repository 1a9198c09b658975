-- ===== src/Qp.antt =====
-- Queue pairs: dis_modify_qp, dis_post_send, dis_post_recv and dis_query_qp of driver/dis_verbs.c,
-- with dis_qp_init and dis_qp_notify of driver/dis_qp.c. The address that kthread_create returns is an
-- argument. Waking a thread has no effect on the state.
pub mod Create
pub mod Modify
pub mod Notify
pub mod Keeps
pub mod Total
pub mod PostList
pub mod Tests
use dis_kverbs.Common.{ℕ, zero, suc, Bool, List, [], ◌∷◌, Option, none, some, if◌then◌else◌}
use dis_kverbs.Kernel.{CircBuf}
use dis_kverbs.Verbs.{
  Ret, done, fail, Iovec, DisWq, WcOpcode, wq_empty, wq_post, wq_uninitialized, wq_initialized,
  wq_running, wq_exited,
}
use dis_kverbs.Post.{IbWr, Mem, dis_qp_post_one_sqe, dis_qp_post_one_rqe}

-- `enum ib_qp_state`
pub data QpState : Type 0 where
  qps_reset qps_init qps_rtr qps_rts qps_sqd qps_sqe qps_err : QpState

-- `struct dis_qp`, with `pd`, `send_cq`, `recv_cq`, `srq` and `qp_num` of its `ibqp`.
pub record DisQp : Type 0 where
  pub pd : ℕ
  pub send_cq : ℕ
  pub recv_cq : ℕ
  pub srq : ℕ
  pub qp_num : ℕ
  pub dev : ℕ
  pub sq_sig_type : ℕ
  pub qp_type : ℕ
  pub event_handler : ℕ
  pub sq : DisWq
  pub rq : DisWq
  pub state : QpState
  pub l_qpn : ℕ
  pub r_qpn : ℕ
  pub mtu : ℕ

-- `struct ib_qp_attr` with the bits of `attr_mask` that are read; the MTU is ib_mtu_enum_to_int's.
pub record QpAttr : Type 0 where
  pub has_state : Bool
  pub qp_state : QpState
  pub has_dest_qpn : Bool
  pub dest_qp_num : ℕ
  pub has_path_mtu : Bool
  pub path_mtu : ℕ

pub dis_qp_notify : DisWq → Ret × DisWq
dis_qp_notify wq = elim wq.wq_state [
  | wq_uninitialized ↦ (fail 42, wq)
  | _ ↦ (done, record wq { wq_flag = wq_post })
]

-- With the address of the new thread, 0 for NULL.
unfoldable pub dis_qp_init : ℕ → DisWq → Ret × DisWq
dis_qp_init thread wq = elim wq.wq_state [
  | wq_exited ↦ (fail 42, wq)
  | _ ↦ elim thread [
    | zero ↦ (fail 42, record wq { wq_state = wq_uninitialized; wq_flag = wq_empty; thread = 0 })
    | suc a ↦ (done, record wq { wq_state = wq_initialized; wq_flag = wq_empty; thread = suc a })
  ]
]

-- The attributes of the change to RTR.
unfoldable pub set_qpn : QpAttr → DisQp → DisQp
set_qpn attr qp =
    if attr.has_dest_qpn
    then record qp {
      r_qpn = qp.l_qpn;
      rq = record (qp.rq) { l_qpn = qp.l_qpn; r_qpn = qp.l_qpn };
      sq = record (qp.sq) { l_qpn = qp.l_qpn; r_qpn = qp.l_qpn };
    }
    else qp

unfoldable pub set_mtu : QpAttr → DisQp → DisQp
set_mtu attr qp =
    if attr.has_path_mtu
    then record qp {
      mtu = attr.path_mtu;
      rq = record (qp.rq) { mtu = attr.path_mtu };
      sq = record (qp.sq) { mtu = attr.path_mtu };
    }
    else qp

-- The two threads; the receive queue's comes first, and stays where the send queue's fails.
unfoldable pub start_threads : ℕ → ℕ → DisQp → Ret × DisQp
start_threads rq_thread sq_thread qp =
    let (ret, rq) = dis_qp_init rq_thread qp.rq in
    let (ret', sq) = dis_qp_init sq_thread qp.sq in
    elim ret [
      | fail _ ↦ (fail 42, record qp { rq = rq })
      | done ↦ elim ret' [
        | fail _ ↦ (fail 42, record qp { rq = rq; sq = sq })
        | done ↦ (done, record qp { rq = rq; sq = sq })
      ]
    ]

-- The switch over the state that is asked for.
unfoldable pub change_state : ℕ → ℕ → QpAttr → DisQp → Ret × DisQp
change_state rq_thread sq_thread attr qp = elim attr.qp_state [
  | qps_reset ↦ (done, qp)
  | qps_init ↦ (done, qp)
  | qps_rtr ↦ start_threads rq_thread sq_thread (set_mtu attr (set_qpn attr qp))
  | qps_rts ↦ (done, qp)
  | _ ↦ (fail 42, qp)
]

abbrev pub changed : QpState → Ret × DisQp → Ret × DisQp
changed s (done, qp) = (done, record qp { state = s })
changed s (fail n, qp) = (fail n, qp)

unfoldable pub dis_modify_qp : ℕ → ℕ → QpAttr → DisQp → Ret × DisQp
dis_modify_qp rq_thread sq_thread attr qp =
    if attr.has_state
    then changed attr.qp_state (change_state rq_thread sq_thread attr qp)
    else (done, qp)

pub dis_query_qp : DisQp → Ret × DisQp
dis_query_qp qp = (fail 42, qp)

-- The loop over a list of requests: the first refusal ends it.
pub post_all : (DisWq → IbWr → Option (Ret × DisWq)) → DisWq → List IbWr → Option (Ret × DisWq)
post_all post wq [] = some (done, wq)
post_all post wq (wr ∷ wrs) = elim (post wq wr) [
  | none ↦ none
  | some (fail _, wq') ↦ some (fail 42, wq')
  | some (done, wq') ↦ post_all post (dis_qp_notify wq').1 wrs
]

module _ (c : CircBuf) (kmalloc : ℕ → Option (ℕ × List Iovec)) (mem : Mem) where
  abbrev pub with_sq : DisQp → Option (Ret × DisWq) → Option (Ret × DisQp)
  with_sq qp none = none
  with_sq qp (some (ret, wq)) = some (ret, record qp { sq = wq })

  abbrev pub with_rq : DisQp → Option (Ret × DisWq) → Option (Ret × DisQp)
  with_rq qp none = none
  with_rq qp (some (ret, wq)) = some (ret, record qp { rq = wq })

  pub dis_post_send : DisQp → List IbWr → Option (Ret × DisQp)
  dis_post_send qp wrs = with_sq qp (post_all (dis_qp_post_one_sqe c kmalloc mem) qp.sq wrs)

  pub dis_post_recv : DisQp → List IbWr → Option (Ret × DisQp)
  dis_post_recv qp wrs = with_rq qp (post_all (dis_qp_post_one_rqe c kmalloc mem) qp.rq wrs)
