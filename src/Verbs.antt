-- ===== src/Verbs.antt =====
-- driver/dis_verbs.h: the limits, the enumerations and the structures of the driver. A pointer to
-- an object of the kernel is a number, with 0 for NULL; a field that only the kernel reads
-- (embedded ib_ structures, locks, wait queues) or that nothing reads (`l_qpn` of an entry) is left
-- out.
mod Words
pub mod Cast
pub use Words.{u16, u32, u64, sub64, circ_next_lem}
unfoldable pub use Words.{circ_next}
use dis_kverbs.Common.{ℕ, ◌*◌, Bool, Option, List, [], replicate}

abbrev pub dis_qp_ini : ℕ
dis_qp_ini = 100

abbrev pub dis_qp_max : ℕ
dis_qp_max = 200

abbrev pub dis_mr_ini : ℕ
dis_mr_ini = 0

abbrev pub dis_mr_max : ℕ
dis_mr_max = 100

abbrev pub dis_sge_per_wqe : ℕ
dis_sge_per_wqe = 4

abbrev pub dis_max_iovlen : ℕ
dis_max_iovlen = 1024

abbrev pub dis_msg_max : ℕ
dis_msg_max = 20

-- PAGE_SIZE of x86-64.
abbrev pub page_size : ℕ
page_size = 4096

abbrev pub dis_msg_size_max : ℕ
dis_msg_size_max = dis_max_iovlen * page_size

pub data DisWqFlag : Type 0 where
  wq_empty wq_post : DisWqFlag

pub data DisWqStatus : Type 0 where
  wq_uninitialized wq_initialized wq_running wq_exited : DisWqStatus

pub data DisWqType : Type 0 where
  dis_sq dis_rq : DisWqType

-- An int that a verb returns: `done` is 0, and `fail n` is -n.
pub data Ret : Type 0 where
  done : Ret
  fail : ℕ → Ret

-- `enum ib_wc_status`, the two values that the driver uses.
pub data WcStatus : Type 0 where
  wc_success wc_resp_timeout_err : WcStatus

-- `enum ib_wc_opcode`, the two values that the driver uses.
pub data WcOpcode : Type 0 where
  wc_send wc_recv : WcOpcode

-- `struct iovec`
pub record Iovec : Type 0 where
  pub iov_base : ℕ
  pub iov_len : ℕ

pub record DisMr : Type 0 where
  pub lkey : ℕ
  pub ibumem : ℕ
  pub pages : List Iovec
  pub mr_va : ℕ
  pub mr_va_offset : ℕ
  pub mr_length : ℕ
  pub page_count : ℕ
  pub is_dma : Bool

pub record DisCqe : Type 0 where
  pub ibqp : ℕ
  pub wr_id : ℕ
  pub status : WcStatus
  pub byte_len : ℕ
  pub opcode : WcOpcode

-- `cqe_circ` is the list of the slots with the two indices; `ib_cqe` is `ibcq.cqe`.
pub record DisCq : Type 0 where
  pub ib_cqe : ℕ
  pub buf : List DisCqe
  pub head : ℕ
  pub tail : ℕ
  pub cqe_max : ℕ

-- Where `sci_msg.iov` points: nowhere, at an element of the static map, at the dynamic map.
pub data IovPtr : Type 0 where
  iov_null : IovPtr
  iov_static : ℕ → IovPtr
  iov_dynamic : IovPtr

-- `page_map_dynamic` is the address, and `dynamic_cells` the memory that it points to.
pub record DisWqe : Type 0 where
  pub ibqp : ℕ
  pub page_map_dynamic : ℕ
  pub dynamic_cells : List Iovec
  pub page_map_static : List Iovec
  pub sci_msq : ℕ
  pub iov : IovPtr
  pub iovlen : ℕ
  pub wr_id : ℕ
  pub byte_len : ℕ
  pub opcode : WcOpcode

-- `sci_msq` is the address of the queue's own message queue.
pub record DisWq : Type 0 where
  pub cq : ℕ
  pub ibqp : ℕ
  pub buf : List DisWqe
  pub head : ℕ
  pub tail : ℕ
  pub thread : ℕ
  pub sci_msq : ℕ
  pub wq_flag : DisWqFlag
  pub wq_state : DisWqStatus
  pub wq_type : DisWqType
  pub wqe_max : ℕ
  pub sge_max : ℕ
  pub inline_max : ℕ
  pub mtu : ℕ
  pub l_qpn : ℕ
  pub r_qpn : ℕ

-- A slot as kzalloc leaves it.
abbrev pub zero_cqe : DisCqe
zero_cqe = record { ibqp = 0; wr_id = 0; status = wc_success; byte_len = 0; opcode = wc_send }

abbrev pub zero_iovec : Iovec
zero_iovec = record { iov_base = 0; iov_len = 0 }

abbrev pub zero_wqe : DisWqe
zero_wqe = record {
  ibqp = 0;
  page_map_dynamic = 0;
  dynamic_cells = [];
  page_map_static = replicate dis_sge_per_wqe zero_iovec;
  sci_msq = 0;
  iov = iov_null;
  iovlen = 0;
  wr_id = 0;
  byte_len = 0;
  opcode = wc_send;
}
