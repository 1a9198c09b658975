-- ===== src/SciIf.antt =====
-- driver/dis_sci_if.c, built without DIS_USE_DMA: the message queues that a work queue is joined to
-- the other node by. SCILib is not part of the repository: what it answers is an argument.
pub mod Collide
pub mod Pairing
mod Tests
use dis_kverbs.Common.{ℕ, ◌+◌, ◌*◌, Bool, true, false, if◌then◌else◌}
use dis_kverbs.Verbs.{Ret, done, fail, DisWq, DisWqe, dis_msg_max, dis_msg_size_max, u32}

-- The parameters of the module.
pub record SciParams : Type 0 where
  pub local_adapter_no : ℕ
  pub remote_node_id : ℕ
  pub is_initiator : Bool
  pub use_l_qpn : Bool

-- `sci_error_t`: SCI_ERR_OK, or one of the codes that the driver names, or another one.
pub data SciFailure : Type 0 where
  illegal_parameter nospc connection_refused no_such_segment would_block : SciFailure
  not_connected out_of_range : SciFailure
  unknown : ℕ → SciFailure

pub data SciError : Type 0 where
  sci_ok : SciError
  sci_failed : SciFailure → SciError

-- The switches over the code: each failure is -42.
abbrev pub sci_ret : SciError → Ret
sci_ret sci_ok = done
sci_ret (sci_failed _) = fail 42

-- What SCILCreateMsgQueue and SCILConnectMsgQueue are called with.
pub record MsqRequest : Type 0 where
  pub adapter : ℕ
  pub node : ℕ
  pub l_msq_id : ℕ
  pub r_msq_id : ℕ
  pub max_msgs : ℕ
  pub max_size : ℕ

module _ (p : SciParams) where
  pub create_request : DisWq → MsqRequest
  create_request wq =
      let l = wq.l_qpn in
      let r = if p.use_l_qpn then wq.l_qpn else wq.r_qpn in
      record {
        adapter = p.local_adapter_no;
        node = p.remote_node_id;
        l_msq_id = if p.is_initiator then u32 (l * 2) else u32 (l * 2 + 1);
        r_msq_id = if p.is_initiator then u32 (r * 2) else u32 (r * 2 + 1);
        max_msgs = dis_msg_max;
        max_size = dis_msg_size_max;
      }

  pub connect_request : DisWq → MsqRequest
  connect_request wq =
      let l = wq.l_qpn in
      let r = if p.use_l_qpn then wq.l_qpn else wq.r_qpn in
      record {
        adapter = p.local_adapter_no;
        node = p.remote_node_id;
        l_msq_id = if p.is_initiator then u32 (l * 2 + 1) else u32 (l * 2);
        r_msq_id = if p.is_initiator then u32 (r * 2 + 1) else u32 (r * 2);
        max_msgs = dis_msg_max;
        max_size = dis_msg_size_max;
      }

  -- The library's answer decides the result.
  pub dis_sci_if_create_msq : (MsqRequest → SciError) → DisWq → Ret
  dis_sci_if_create_msq create wq = sci_ret (create (create_request wq))

  pub dis_sci_if_connect_msq : (MsqRequest → SciError) → DisWq → Ret
  dis_sci_if_connect_msq connect wq = sci_ret (connect (connect_request wq))

-- One answer of SCILSendVMsg or SCILReceiveVMsg: the code, and for a receive what stands in
-- `byte_len` afterwards.
pub data SciReply : Type 0 where
  answer : SciError → ℕ → SciReply

abbrev pub dis_sci_if_send_v_msg : SciReply → DisWqe → Ret
dis_sci_if_send_v_msg (answer err _) wqe = sci_ret err

abbrev pub dis_sci_if_receive_v_msg : SciReply → DisWqe → Ret × DisWqe
dis_sci_if_receive_v_msg (answer err n) wqe = (sci_ret err, record wqe { byte_len = n })

-- An end of a message queue that is joined: created for a receive queue, connected for a send queue, at
-- the address of its handle.
pub data MsqEnd : Type 0 where
  created connected : ℕ → MsqEnd

-- SCILRemoveMsgQueue and SCILDisconnectMsgQueue: the end that is given back.
abbrev pub dis_sci_if_remove_msq : DisWq → MsqEnd
dis_sci_if_remove_msq wq = created wq.sci_msq

abbrev pub dis_sci_if_disconnect_msq : DisWq → MsqEnd
dis_sci_if_disconnect_msq wq = connected wq.sci_msq

-- Loading and unloading the module, with what SCILInit and SCILReconf answer: the result, and whether
-- SCILib is initialized afterwards. A failure of SCILReconf does not undo SCILInit.
pub dis_sci_if_init : SciError → SciError → Ret × Bool
dis_sci_if_init (sci_failed _) reconf = (fail 1, false)
dis_sci_if_init sci_ok (sci_failed _) = (fail 1, true)
dis_sci_if_init sci_ok sci_ok = (done, true)

-- SCILDestroy; its failure is only logged.
pub dis_sci_if_exit : SciError → Bool
dis_sci_if_exit sci_ok = false
dis_sci_if_exit (sci_failed _) = true
