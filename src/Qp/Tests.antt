-- ===== src/Qp/Tests.antt =====
-- A queue pair that is moved to RTR and posted to, and the theorems at it.
use dis_kverbs.Common.{
  ℕ, ◌+◌, ◌*◌, get_elem?, ◌≡◌, refl, arith, true, false, some, List, [], ◌∷◌, ◌++◌, inl,
}
use dis_kverbs.Kernel.Concrete.{plain_circ, plain_round}
use dis_kverbs.Memory.{load}
use dis_kverbs.Verbs.{DisWqType, dis_rq, dis_sq, done, DisWqe, DisWq, wc_send}
use dis_kverbs.Post.Build.{IsWq, wq_contents}
use dis_kverbs.Post.Tests.{region, domain, memory, queue, request, no_memory, queue-IsWq, all_in}
use dis_kverbs.Qp.{DisQp, QpAttr, qps_init, qps_rtr, dis_post_send}
use dis_kverbs.Qp.Create.{QpInitAttr, QpEnv, dis_create_qp}
use dis_kverbs.Qp.Create.Settled.{Settled, dis_create_qp-Settled}
use dis_kverbs.Qp.Create.Valid.{IsNew, dis_create_qp_lem}
use dis_kverbs.Qp.PostList.{Request, AllBuilt, IsPostable, AllPostable, dis_post_send_lem}

abbrev pub pair : DisQp
pair = record {
  pd = 5;
  send_cq = 21;
  recv_cq = 21;
  srq = 0;
  qp_num = 100;
  dev = 9;
  sq_sig_type = 0;
  qp_type = 2;
  event_handler = 0;
  sq = queue;
  rq = queue;
  state = qps_init;
  l_qpn = 100;
  r_qpn = 0;
  mtu = 4096;
}

abbrev pub to_rtr : QpAttr
to_rtr = record {
  has_state = true;
  qp_state = qps_rtr;
  has_dest_qpn = true;
  dest_qp_num = 105;
  has_path_mtu = false;
  path_mtu = 0;
}

abbrev pub requests : List Request
requests = (request, region ∷ []) ∷ (request, region ∷ []) ∷ []

pub postable : AllPostable plain_circ no_memory memory domain requests
postable =
    let one : IsPostable plain_circ no_memory memory domain (request, region ∷ []) = record {
      inside = all_in;
      few = omega arith;
      granted = inl (omega arith);
    } in
    (one, (one, tt))

dis_post_send_lem_example :
    (wqes : List DisWqe) × (wq : DisWq) × (dis_post_send plain_circ no_memory memory pair
        (request ∷ request ∷ [])
      ≡ some (done, record pair { sq = wq }))
    × (wq_contents wq ≡ wq_contents queue ++ wqes)
    × IsWq wq
    × AllBuilt wc_send queue requests wqes
dis_post_send_lem_example =
    dis_post_send_lem plain_circ no_memory memory domain pair requests queue-IsWq (omega arith) refl
      postable

abbrev pub made_of : QpInitAttr
made_of = record {
  send_cq = 21;
  recv_cq = 22;
  srq = 0;
  event_handler = 0;
  sq_sig_type = 0;
  qp_type = 2;
  max_send_wr = 5;
  max_recv_wr = 3;
  max_send_sge = 4;
  max_recv_sge = 4;
  max_inline_data = 0;
}

-- Where the message queues of a pair lie, for the runs.
abbrev pub queues_at : ℕ → DisWqType → ℕ
queues_at qp dis_rq = qp * 2
queues_at qp dis_sq = qp * 2 + 1

abbrev no_rq_memory : QpEnv
no_rq_memory = record { qp_alloc = true; sq_alloc = true; rq_alloc = false }

abbrev pub all_memory : QpEnv
all_memory = record { qp_alloc = true; sq_alloc = true; rq_alloc = true }

dis_create_qp-Settled_example :
    Settled
      (λ type wq. wq)
      domain
      []
      (dis_create_qp plain_round queues_at 9 domain [] made_of no_rq_memory)
dis_create_qp-Settled_example =
    dis_create_qp-Settled (λ type wq. wq) plain_round queues_at 9 domain [] made_of no_rq_memory

dis_create_qp_lem_example :
    let out = dis_create_qp plain_round queues_at 9 domain [] made_of all_memory in
    (qp : DisQp) × (load out.qps out.result ≡ some qp)
    × (qp.qp_num ≡ 100)
    × (out.pd.qp_c ≡ 101)
    × (get_elem? out.pd.qp_list 100 ≡ some out.result)
    × IsNew qp.sq 5
    × IsNew qp.rq 3
    × (qp.sq.ibqp ≡ out.result)
    × (qp.rq.ibqp ≡ out.result)
    × (qp.sq.cq ≡ 21)
    × (qp.rq.cq ≡ 22)
dis_create_qp_lem_example =
    dis_create_qp_lem plain_round queues_at 9 domain [] made_of (omega arith) refl (omega arith)
      (omega arith)
