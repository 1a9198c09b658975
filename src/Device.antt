-- ===== src/Device.antt =====
-- What the device says of itself: the queries of driver/dis_verbs.c. The constants of rdma/ib_verbs.h
-- that it answers with are a parameter.
pub mod Bounds
mod Tests
use dis_kverbs.Common.{ℕ}
use dis_kverbs.Verbs.{
  Ret, done, dis_msg_size_max, dis_msg_max, dis_sge_per_wqe, dis_mr_max, page_size,
}

pub record IbConsts : Type 0 where
  -- IB_DEVICE_ALLOW_USER_UNREG | IB_DEVICE_MEM_MGT_EXTENSIONS
  pub allow_user_unreg_or_mem_mgt_extensions : ℕ
  pub ib_atomic_none : ℕ
  pub ib_mtu_4096 : ℕ
  pub ib_port_phys_state_link_up : ℕ
  pub ib_port_active : ℕ
  pub rdma_core_port_raw_packet : ℕ
  pub ib_link_layer_unspecified : ℕ

-- `struct ib_device_attr`, the fields that the driver sets.
pub record DeviceAttr : Type 0 where
  pub fw_ver : ℕ
  pub sys_image_guid : ℕ
  pub max_mr_size : ℕ
  pub page_size_cap : ℕ
  pub vendor_id : ℕ
  pub vendor_part_id : ℕ
  pub hw_ver : ℕ
  pub max_qp : ℕ
  pub max_qp_wr : ℕ
  pub device_cap_flags : ℕ
  pub max_send_sge : ℕ
  pub max_recv_sge : ℕ
  pub max_sge_rd : ℕ
  pub max_cq : ℕ
  pub max_cqe : ℕ
  pub max_mr : ℕ
  pub max_pd : ℕ
  pub max_qp_rd_atom : ℕ
  pub max_qp_init_rd_atom : ℕ
  pub atomic_cap : ℕ
  pub max_pkeys : ℕ
  pub local_ca_ack_delay : ℕ

-- `struct ib_port_attr`, the fields that the driver sets.
pub record PortAttr : Type 0 where
  pub gid_tbl_len : ℕ
  pub pkey_tbl_len : ℕ
  pub max_vl_num : ℕ
  pub max_msg_sz : ℕ
  pub max_mtu : ℕ
  pub active_mtu : ℕ
  pub lid : ℕ
  pub sm_lid : ℕ
  pub bad_pkey_cntr : ℕ
  pub qkey_viol_cntr : ℕ
  pub lmc : ℕ
  pub sm_sl : ℕ
  pub subnet_timeout : ℕ
  pub init_type_reply : ℕ
  pub phys_state : ℕ
  pub state : ℕ

-- `struct ib_port_immutable`, the fields that the driver sets.
pub record PortImmutable : Type 0 where
  pub pkey_tbl_len : ℕ
  pub gid_tbl_len : ℕ
  pub core_cap_flags : ℕ
  pub max_mad_size : ℕ

pub dis_alloc_ucontext : Ret
dis_alloc_ucontext = done

module _ (k : IbConsts) where
  pub dis_query_device : Ret × DeviceAttr
  dis_query_device = (
    done,
    record {
      fw_ver = 1;
      sys_image_guid = 1234;
      max_mr_size = dis_msg_size_max;
      page_size_cap = page_size;
      vendor_id = 4660;
      vendor_part_id = 4660;
      hw_ver = 1234;
      max_qp = 1234;
      max_qp_wr = dis_msg_max;
      device_cap_flags = k.allow_user_unreg_or_mem_mgt_extensions;
      max_send_sge = dis_sge_per_wqe;
      max_recv_sge = dis_sge_per_wqe;
      max_sge_rd = 1;
      max_cq = 1234;
      max_cqe = 1234;
      max_mr = dis_mr_max;
      max_pd = 1234;
      max_qp_rd_atom = 0;
      max_qp_init_rd_atom = 0;
      atomic_cap = k.ib_atomic_none;
      max_pkeys = 1;
      local_ca_ack_delay = 1;
    },
  )

  pub dis_query_port : ℕ → Ret × PortAttr
  dis_query_port port = (
    done,
    record {
      gid_tbl_len = 1;
      pkey_tbl_len = 1;
      max_vl_num = 1;
      max_msg_sz = dis_msg_size_max;
      max_mtu = k.ib_mtu_4096;
      active_mtu = k.ib_mtu_4096;
      lid = 1234;
      sm_lid = 1234;
      bad_pkey_cntr = 0;
      qkey_viol_cntr = 0;
      lmc = 0;
      sm_sl = 0;
      subnet_timeout = 0;
      init_type_reply = 0;
      phys_state = k.ib_port_phys_state_link_up;
      state = k.ib_port_active;
    },
  )

  pub dis_get_port_immutable : ℕ → Ret × PortImmutable
  dis_get_port_immutable port_num = (
    done,
    record {
      pkey_tbl_len = 1;
      gid_tbl_len = 1;
      core_cap_flags = k.rdma_core_port_raw_packet;
      max_mad_size = 0;
    },
  )

  pub dis_get_link_layer : ℕ → ℕ
  dis_get_link_layer port_num = k.ib_link_layer_unspecified

-- The result, and the key for each index.
pub dis_query_pkey : ℕ → ℕ → Ret × ℕ
dis_query_pkey port index = (done, 65535)
