-- ===== src/Cq/Tests.antt =====
-- Runs of the completion queue, and the theorems at concrete queues.
use dis_kverbs.Common.{◌≡◌, refl, arith, true, List, [], ◌∷◌, ◌++◌, map, set}
use dis_kverbs.Kernel.Concrete.{plain_circ, plain_round, log_from}
use dis_kverbs.Verbs.{wc_success, wc_recv, DisWqe, DisCqe, DisCq, zero_cqe, zero_wqe, circ_next}
use dis_kverbs.Cq.{cqe_of, wc_of, dis_create_cq, dis_wq_post_rqe_cqe, dis_poll_cq}
use dis_kverbs.Cq.Inv.{IsValid, contents}
use dis_kverbs.Cq.Trace.{CqOp, sqe_cqe, rqe_cqe, poll, run_cq, run_queue, run_refines}
use dis_kverbs.Cq.Interleave.Twice.{PairSteps, polled_twice}
use dis_kverbs.Cq.Interleave.{
  outside, unlocked, Shared, poll_load, poll_read, poll_store, post_load, post_write, post_store,
  Accesses, none_yet, more,
}
use dis_kverbs.Cq.Interleave.Order.{polls_in_order}

abbrev blank : DisCq
blank = record { ib_cqe = 0; buf = []; head = 0; tail = 0; cqe_max = 0 }

abbrev message : DisWqe
message = record zero_wqe { ibqp = 7; wr_id = 5; byte_len = 70000; opcode = wc_recv }

abbrev script : List CqOp
script = sqe_cqe message wc_success ∷ rqe_cqe message wc_success ∷ poll 2 ∷ []

abbrev entry : DisCqe
entry = record zero_cqe { ibqp = 7; wr_id = 5; byte_len = 4464; opcode = wc_recv }

-- Room for three, two waiting, the head gone round.
abbrev wrapped : DisCq
wrapped = record {
  ib_cqe = 4;
  buf = entry ∷ zero_cqe ∷ zero_cqe ∷ entry ∷ [];
  head = 1;
  tail = 3;
  cqe_max = 4;
}

wrapped-IsValid : IsValid wrapped
wrapped-IsValid = record {
  ring = record {
    log = 2;
    is_pow = refl;
    small = omega arith;
    filled = refl;
    head_in = omega arith;
    tail_in = omega arith;
  };
}

create_for_three : (dis_create_cq plain_round blank 3 true).1.cqe_max ≡ 4
unfolding dis_create_cq log_from
create_for_three = refl

-- A length of 70000 bytes is reported as 4464.
post_then_poll :
    (dis_poll_cq plain_circ (dis_wq_post_rqe_cqe plain_circ wrapped message wc_success).1 5).0
    ≡ wc_of entry ∷ wc_of entry ∷ wc_of entry ∷ []
unfolding dis_poll_cq dis_wq_post_rqe_cqe wc_of cqe_of circ_next
post_then_poll = refl

run_refines_example : run_cq plain_circ wrapped script ≡ run_queue 3 (contents wrapped) script
run_refines_example = run_refines plain_circ script wrapped-IsValid

-- Two entries wait, a poll and a posting are about to begin.
abbrev shared : Shared
shared = record {
  cq = wrapped;
  poller = outside;
  poster = unlocked;
  posted = entry ∷ entry ∷ [];
  polled = [];
}

-- The poll loads its indices before, and hands out an entry after the posting published its own.
abbrev crossed : Shared
crossed = record {
  cq = record wrapped {
    buf = set wrapped.buf 1 (cqe_of message wc_success);
    head = circ_next 1 4;
    tail = circ_next 3 4;
  };
  poller = outside;
  poster = unlocked;
  posted = entry ∷ entry ∷ cqe_of message wc_success ∷ [];
  polled = wc_of entry ∷ [];
}

crossing : Accesses plain_circ shared crossed
crossing =
    let begun = more (more none_yet (poll_load refl)) (post_load message wc_success refl) in
    let midway =
      more (more begun (poll_read 1 3 refl refl)) (post_write message wc_success 1 3 refl refl) in
    more (more midway (post_store message wc_success 1 refl)) (poll_store 3 (wc_of entry) refl)

polls_in_order_example :
    IsValid crossed.cq
    × (map wc_of crossed.posted ≡ crossed.polled ++ map wc_of (contents crossed.cq))
polls_in_order_example = polls_in_order plain_circ wrapped-IsValid refl refl refl refl crossing

polled_twice_example :
    (t : Shared) × PairSteps plain_circ
      (record { shared = shared; other = outside })
      (record { shared = t; other = outside })
    × (t.polled ≡ wc_of entry ∷ wc_of entry ∷ [])
    × (contents wrapped ≡ entry ∷ contents t.cq)
polled_twice_example = polled_twice plain_circ shared wrapped-IsValid (omega arith)
