-- ===== src/Worker/Tests.antt =====
-- Runs of a worker over a queue with two entries, and the theorems at these runs.
use dis_kverbs.Common.{ℕ, ◌+◌, ◌≡◌, refl, arith, some, List, [], ◌∷◌, replicate}
use mathlib.Core.Option
use dis_kverbs.Kernel.Concrete.{plain_circ}
use dis_kverbs.Verbs.{
  DisWqe, DisCqe, DisCq, DisWq, wq_empty, wq_running, dis_rq, zero_wqe, zero_cqe, wc_success,
  wc_resp_timeout_err, circ_next, DisWqType,
}
use dis_kverbs.Cq.{cqe_of, dis_wq_post_rqe_cqe}
use dis_kverbs.Cq.Inv.{IsValid}
use dis_kverbs.SciIf.{SciReply, answer, sci_ok, sci_failed, would_block}
use dis_kverbs.Worker.{
  Drained, complete_rqe, receive_all, dis_wq_consume_one_rqe, consume_one, dis_wq_consume_all,
}
use dis_kverbs.Worker.Receive.{dis_wq_consume_one_rqe_lem}
use dis_kverbs.Worker.Drain.{IsQueue, outcome_of}
use dis_kverbs.Worker.Order.{IsOrdered, dis_wq_consume_all-IsOrdered}

abbrev message : ℕ → ℕ → DisWqe
message id len = record zero_wqe {
  ibqp = 7;
  wr_id = id;
  byte_len = len;
  page_map_dynamic = 500 + id;
}

abbrev queue : DisWqType → DisWq
queue type = record {
  cq = 21;
  ibqp = 7;
  buf = message 2 60 ∷ zero_wqe ∷ zero_wqe ∷ message 1 50 ∷ [];
  head = 1;
  tail = 3;
  thread = 0;
  sci_msq = 11;
  wq_flag = wq_empty;
  wq_state = wq_running;
  wq_type = type;
  wqe_max = 4;
  sge_max = 4;
  inline_max = 0;
  mtu = 4096;
  l_qpn = 100;
  r_qpn = 100;
}

abbrev completions : DisCq
completions = record { ib_cqe = 4; buf = replicate 4 zero_cqe; head = 0; tail = 0; cqe_max = 4 }

abbrev replies : List SciReply
replies =
    answer sci_ok 20
    ∷ answer (sci_failed would_block) 0
    ∷ answer sci_ok 30
    ∷ answer sci_ok 60
    ∷ answer (sci_failed would_block) 0
    ∷ []

queue-IsQueue : (type : DisWqType) → IsQueue (queue type)
queue-IsQueue type = record {
  ring = record {
    log = 2;
    is_pow = refl;
    small = omega arith;
    filled = refl;
    head_in = omega arith;
    tail_in = omega arith;
  };
}

completions-IsValid : IsValid completions
completions-IsValid = record {
  ring = record {
    log = 2;
    is_pow = refl;
    small = omega arith;
    filled = refl;
    head_in = omega arith;
    tail_in = omega arith;
  };
}

-- The first entry comes in two pieces, the second in one; both maps are freed.
receive_two :
    Option.map {B = List DisCqe × List ℕ}
      (λ (d : Drained). (d.cq.buf, d.freed))
      (dis_wq_consume_all plain_circ 4 (queue dis_rq) completions replies)
    ≡ some (
      cqe_of (message 1 50) wc_success
          ∷ cqe_of (message 2 60) wc_success
          ∷ zero_cqe
          ∷ zero_cqe
          ∷ [],
      501 ∷ 502 ∷ [],
    )
unfolding dis_wq_consume_all consume_one dis_wq_consume_one_rqe receive_all dis_wq_post_rqe_cqe
    cqe_of circ_next
receive_two = refl

dis_wq_consume_one_rqe_lem_example :
    (dis_wq_consume_one_rqe plain_circ completions (message 1 50) (answer sci_ok 20 ∷ [])
      ≡ complete_rqe plain_circ completions (message 1 30) wc_resp_timeout_err [])
    × (dis_wq_consume_one_rqe plain_circ completions
          (message 1 50)
          (answer sci_ok 20 ∷ answer sci_ok 30 ∷ answer sci_ok 60 ∷ [])
        ≡ complete_rqe plain_circ completions (message 1 50) wc_success (answer sci_ok 60 ∷ []))
dis_wq_consume_one_rqe_lem_example =
    dis_wq_consume_one_rqe_lem plain_circ completions (message 1 50) (answer sci_ok 20 ∷ [])
      (answer sci_ok 60 ∷ []) 30 (omega arith) (omega arith) refl

dis_wq_consume_all-IsOrdered_example :
    (d : Drained) × (dis_wq_consume_all plain_circ 4 (queue dis_rq) completions replies ≡ some d)
    × IsOrdered completions (message 1 50 ∷ message 2 60 ∷ []) (outcome_of d)
    × IsQueue d.wq
dis_wq_consume_all-IsOrdered_example =
    dis_wq_consume_all-IsOrdered plain_circ (queue dis_rq) completions replies
      (queue-IsQueue dis_rq) completions-IsValid (omega arith)
