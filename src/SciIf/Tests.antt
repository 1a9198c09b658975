-- ===== src/SciIf/Tests.antt =====
-- Two nodes with one queue pair each.
use dis_kverbs.Common.{ℕ, ◌≡◌, ◌≢◌, ◌↔◌, arith, refl, replicate, some, true, false, not, []}
use dis_kverbs.Kernel.Concrete.{plain_round}
use dis_kverbs.Memory.{load}
use dis_kverbs.Pd.{DisPd, dis_alloc_pd}
use dis_kverbs.Qp.{DisQp, dis_modify_qp}
use dis_kverbs.Qp.Create.{dis_create_qp}
use dis_kverbs.Qp.Tests.{to_rtr, made_of, queues_at}
use dis_kverbs.SciIf.Collide.{IsSameRequest, granted, first_pairs_collide}
use dis_kverbs.Verbs.{DisWq, wq_empty, wq_initialized, dis_rq}
use dis_kverbs.SciIf.{SciParams, create_request, connect_request}
use dis_kverbs.SciIf.Pairing.{Meets, peer_qpn, IsNumbered, Meets-iff, msq_ids_apart}

abbrev near : SciParams
near = record { local_adapter_no = 0; remote_node_id = 8; is_initiator = true; use_l_qpn = false }

abbrev far : SciParams
far = record { local_adapter_no = 0; remote_node_id = 4; is_initiator = false; use_l_qpn = false }

abbrev queue : ℕ → ℕ → DisWq
queue l r = record {
  cq = 21;
  ibqp = 3;
  buf = [];
  head = 0;
  tail = 0;
  thread = 0;
  sci_msq = 11;
  wq_flag = wq_empty;
  wq_state = wq_initialized;
  wq_type = dis_rq;
  wqe_max = 0;
  sge_max = 4;
  inline_max = 0;
  mtu = 4096;
  l_qpn = l;
  r_qpn = r;
}

near-IsNumbered : IsNumbered (queue 100 105)
near-IsNumbered = record { l_fits = ground arith; r_fits = ground arith }

far-IsNumbered : IsNumbered (queue 105 100)
far-IsNumbered = record { l_fits = ground arith; r_fits = ground arith }

Meets-iff_example :
    Meets (create_request near (queue 100 105)) (connect_request far (queue 105 100)) ↔ (
      (far.is_initiator ≡ not near.is_initiator)
      × (100 ≡ peer_qpn far (queue 105 100))
      × (105 ≡ peer_qpn near (queue 100 105)))
unfolding peer_qpn
Meets-iff_example =
    Meets-iff near far (queue 100 105) (queue 105 100) near-IsNumbered far-IsNumbered

msq_ids_apart_example :
    ((create_request near (queue 100 105)).l_msq_id
      ≢ (connect_request near (queue 100 105)).l_msq_id)
    × ((create_request near (queue 100 105)).l_msq_id
        ≢ (create_request near (queue 105 100)).l_msq_id)
    × ((connect_request near (queue 100 105)).l_msq_id
        ≢ (connect_request near (queue 105 100)).l_msq_id)
    × ((create_request near (queue 100 105)).l_msq_id
        ≢ (connect_request near (queue 105 100)).l_msq_id)
msq_ids_apart_example =
    msq_ids_apart near (queue 100 105) (queue 105 100) near-IsNumbered far-IsNumbered (ground arith)

abbrev handed : DisPd
handed = record {
  dev = 0;
  qp_list = replicate 200 0;
  mr_list = replicate 100 0;
  qp_c = 0;
  mr_c = 0;
}

-- Two domains at 9 and 10, whose pairs are given the destinations 105 and 7.
first_pairs_collide_example :
    let out = dis_create_qp plain_round queues_at 9 (dis_alloc_pd handed 4).1 [] made_of granted in
    let out' =
      dis_create_qp plain_round queues_at 10 (dis_alloc_pd handed 4).1 out.qps made_of granted in
    (qp : DisQp) × (qp' : DisQp) × (load out'.qps out.result ≡ some qp)
    × (load out'.qps out'.result ≡ some qp')
    × (out.result ≢ out'.result)
    × IsSameRequest near
        (dis_modify_qp 5 6 to_rtr qp).1.rq
        (dis_modify_qp 7 8 (record to_rtr { dest_qp_num = 7 }) qp').1.rq
    × IsSameRequest near
        (dis_modify_qp 5 6 to_rtr qp).1.sq
        (dis_modify_qp 7 8 (record to_rtr { dest_qp_num = 7 }) qp').1.sq
first_pairs_collide_example =
    first_pairs_collide plain_round queues_at near 9 10 4 handed handed [] made_of made_of to_rtr
      (record to_rtr { dest_qp_num = 7 }) 4 5 6 7 refl refl refl refl refl refl
