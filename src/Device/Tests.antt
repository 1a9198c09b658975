-- ===== src/Device/Tests.antt =====
-- A message of two pages' border, and the theorems at it.
use dis_kverbs.Common.{◌+◌, ◌%◌, ◌<◌, ◌≡◌, ◌↔◌, refl, arith, some, [], ◌∷◌, inl}
use dis_kverbs.Kernel.Concrete.{plain_circ}
use dis_kverbs.Verbs.{Ret, done, DisWq, wc_send, page_size}
use dis_kverbs.Post.{post_one, used_sges}
use dis_kverbs.Post.Spec.{region_offset, sges_len}
use dis_kverbs.Post.Correct.{post_one_lem}
use dis_kverbs.Post.Tests.{
  domain, memory, queue, region, request, segment, no_memory, queue-IsWq, all_in,
}
use dis_kverbs.Device.{IbConsts}
use dis_kverbs.Device.Bounds.{max_msg_sz, posted_fits, one_segment_fits}

abbrev consts : IbConsts
consts = record {
  allow_user_unreg_or_mem_mgt_extensions = 0;
  ib_atomic_none = 0;
  ib_mtu_4096 = 5;
  ib_port_phys_state_link_up = 5;
  ib_port_active = 4;
  rdma_core_port_raw_packet = 0;
  ib_link_layer_unspecified = 0;
}

posted_fits_example : sges_len (used_sges request) < max_msg_sz consts 1
posted_fits_example =
    posted_fits plain_circ no_memory memory consts 1 wc_send domain queue
      (post_one_lem plain_circ no_memory memory wc_send domain queue request (region ∷ [])
        queue-IsWq (omega arith) refl all_in (omega arith) (inl (omega arith))).1
      request (region ∷ []) refl all_in
      (post_one_lem plain_circ no_memory memory wc_send domain queue request (region ∷ [])
        queue-IsWq (omega arith) refl all_in (omega arith) (inl (omega arith))).2

one_segment_fits_example :
    (ret : Ret) × (wq : DisWq) × (post_one plain_circ no_memory memory wc_send queue request
      ≡ some (ret, wq))
    × ((ret ≡ done) ↔ (region_offset region segment % page_size + 200 < max_msg_sz consts 1))
one_segment_fits_example =
    one_segment_fits plain_circ no_memory memory consts 1 wc_send domain queue request region
      segment queue-IsWq (omega arith) refl refl all_in (inl (omega arith))
