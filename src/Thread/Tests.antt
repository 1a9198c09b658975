-- ===== src/Thread/Tests.antt =====
-- A worker of a send queue with four slots, and the theorems at it.
use dis_kverbs.Common.{
  ℕ, ◌≡◌, ◌≢◌, ◌≤◌, ◌⊎◌, refl, arith, true, false, [], ◌∷◌, none, some, inr, replicate,
}
use dis_kverbs.Events.{replay}
use dis_kverbs.Kernel.Concrete.{plain_circ}
use dis_kverbs.Verbs.{DisCq, DisWqe, wq_post, wq_running, wq_exited, zero_wqe, zero_cqe, done}
use dis_kverbs.Cq.Inv.{IsValid}
use dis_kverbs.Post.Tests.{queue, no_memory, memory, queue-IsWq}
use dis_kverbs.Qp.Create.{dis_qp_exit}
use dis_kverbs.SciIf.Pairing.{connect_answered}
use dis_kverbs.Events.{acquire, release}
use dis_kverbs.SciIf.{SciParams, sci_ok}
use dis_kverbs.Worker.Tail.{IsQueue, wq_waiting}
use dis_kverbs.Thread.{
  starting, consuming, waiting, gone, never_ran, System, Turn, rest, work, start, join, clear,
  drained, stop, leave, turn, tell, Reach, here, next, Works, joined, dis_wq_exit, join_msq,
  is_drained,
}
use dis_kverbs.Thread.Inv.{same_end}
use dis_kverbs.Thread.Wakeup.{IsStart, no_lost_wakeup, exited_holds_nothing, exit_hangs}
use dis_kverbs.Thread.Live.{IsCaughtUp, catches_up}
use dis_kverbs.Thread.Stop.{IsStopped, turns, stops}

abbrev pub params : SciParams
params = record { local_adapter_no = 0; remote_node_id = 8; is_initiator = true; use_l_qpn = false }

abbrev pub completions : DisCq
completions = record { ib_cqe = 4; buf = replicate 4 zero_cqe; head = 0; tail = 0; cqe_max = 4 }

pub completions-IsValid : IsValid completions
completions-IsValid = record {
  ring = record {
    log = 2;
    is_pow = refl;
    small = omega arith;
    filled = refl;
    head_in = omega arith;
    tail_in = omega arith;
  };
}

abbrev first : System
first = record {
  wq = queue;
  cq = completions;
  pc = starting;
  told = false;
  signaled = false;
  posting = false;
  events = [];
}

first-IsStart : IsStart first
first-IsStart = record {
  ordered = record { ring = queue-IsWq.ring };
  state = refl;
  at_start = refl;
  silent = refl;
  nothing_held = refl;
}

joins : join_msq params sci_ok (record queue { wq_state = wq_running }) ≡ done
unfolding join_msq
joins = connect_answered params sci_ok (record queue { wq_state = wq_running })

-- Where the thread waits, having joined its message queue and found nothing.
abbrev running : System
running = record first {
  wq = record queue { wq_state = wq_running };
  pc = consuming;
  events = acquire (joined (record queue { wq_state = wq_running })) ∷ [];
}

to_running : Reach plain_circ params no_memory memory first running
to_running =
    next (next (next here (turn (start refl))) (turn (join sci_ok refl refl joins)))
      (turn (clear refl refl))

found_none : is_drained plain_circ running.wq ≡ true
unfolding is_drained
found_none = refl

to_waiting : Reach plain_circ params no_memory memory first (record running { pc = waiting })
to_waiting = next to_running (turn (drained refl refl found_none))

no_lost_wakeup_example : wq_waiting running.wq ≡ []
no_lost_wakeup_example =
    no_lost_wakeup plain_circ params no_memory memory first-IsStart to_waiting refl refl refl

abbrev after_exit : System
after_exit = record running {
  wq = record queue { wq_state = wq_exited };
  pc = gone;
  told = true;
  events =
      acquire (joined (record queue { wq_state = wq_running }))
      ∷ release (dis_wq_exit (record queue { wq_state = wq_running }))
      ∷ [];
}

to_exit : Reach plain_circ params no_memory memory first after_exit
to_exit = next (next (next to_running tell) (turn (stop (inr refl) refl))) (turn (leave refl))

exited_holds_nothing_example : replay same_end [] after_exit.events ≡ some []
exited_holds_nothing_example =
    exited_holds_nothing plain_circ params no_memory memory first-IsStart to_exit refl

exit_hangs_example :
    Reach plain_circ params no_memory memory first (record first { told = true; pc = never_ran })
    × (dis_qp_exit (λ _. queue) queue ≡ none)
exit_hangs_example = exit_hangs plain_circ params no_memory memory first-IsStart here

abbrev told_so : System
told_so = record running { told = true }

stopping : Works plain_circ params told_so after_exit
stopping = work (stop (inr refl) refl) (work (leave refl) rest)

stops_example :
    (turns plain_circ params stopping ≤ 4)
    × ((IsStopped plain_circ params after_exit
          × (dis_qp_exit (λ _. after_exit.wq) told_so.wq ≢ none))
        ⊎ ((w : System) × Turn plain_circ params after_exit w))
stops_example =
    stops plain_circ params no_memory memory first-IsStart (next to_running tell) (λ e. cc)
      (λ e. cc) refl stopping

abbrev pub message : ℕ → ℕ → DisWqe
message id len = record zero_wqe { ibqp = 7; wr_id = id; byte_len = len }

-- Two entries, the second one behind the wrap, and a notification that ends the wait.
abbrev loaded : System
loaded = record running {
  wq = record queue {
    buf = message 2 60 ∷ zero_wqe ∷ zero_wqe ∷ message 1 50 ∷ [];
    head = 1;
    wq_state = wq_running;
    wq_flag = wq_post;
  };
  pc = waiting;
}

loaded-IsQueue : IsQueue loaded.wq
loaded-IsQueue = record {
  ring = record {
    log = 2;
    is_pow = refl;
    small = omega arith;
    filled = refl;
    head_in = omega arith;
    tail_in = omega arith;
  };
}

catches_up_example :
    (t : System) × Works plain_circ params loaded t × IsCaughtUp plain_circ params loaded t
catches_up_example =
    catches_up plain_circ params {s = loaded} (inr (inr (refl, refl))) refl loaded-IsQueue
      completions-IsValid (omega arith)
