-- ===== src/Thread/OnceTests.antt =====
-- A path on which an entry is finished, polled and another one posted, and the theorem at it.
use dis_kverbs.Common.{
  ◌/◌, ℕ, zero, suc, ◌≡◌, ◌<◌, ◌+◌, refl, sym, arith, true, false, [], ◌∷◌, ◌++◌, some, inl, map,
  length, get_or,
}
use dis_kverbs.Kernel.Concrete.{plain_circ}
use dis_kverbs.Verbs.{
  DisWq, DisWqe, dis_sq, wq_running, wc_success, wc_send, zero_wqe, done, circ_next,
}
use dis_kverbs.Cq.Inv.{contents}
use dis_kverbs.Post.{post_one}
use dis_kverbs.Post.Build.{IsWq, wq_used}
use dis_kverbs.Post.Correct.{post_one_lem}
use dis_kverbs.Post.Tests.{domain, queue, no_memory, memory, request, region, all_in}
use dis_kverbs.SciIf.{answer, sci_ok}
use dis_kverbs.SciIf.Pairing.{connect_answered}
use dis_kverbs.Events.{acquire}
use dis_kverbs.Cq.{dis_poll_cq}
use dis_kverbs.Worker.{Consumed, consume_one, complete_sqe, step_tail}
use dis_kverbs.Worker.Complete.{Label, wqe_label, cqe_label, wc_label}
use dis_kverbs.Worker.Success.{consume_one_success}
use dis_kverbs.Thread.Unfinished.{unfinished}
use dis_kverbs.Thread.{
  System, starting, consuming, start, join, clear, fetch, finish, advance, turn, post, poll, Reach,
  here, next, join_msq, joined, is_drained,
}
use dis_kverbs.Thread.Tests.{params, completions, completions-IsValid, message}
use dis_kverbs.Thread.Wakeup.{IsStart}
use dis_kverbs.Thread.Trace.{posts, polls, IsRoomy, along}
use dis_kverbs.Thread.Once.{exactly_once}
use dis_kverbs.Thread.Shared.{
  Shares, alone, broken, finished_elsewhere, IsAccounted, exactly_once_shared,
}
use native.Mathlib.Decide.{ℕ_discrete}

-- Two entries wait in a queue whose thread has not run yet.
abbrev filled : System
filled = record {
  wq = record queue { buf = message 2 60 ∷ zero_wqe ∷ zero_wqe ∷ message 1 50 ∷ []; head = 1 };
  cq = completions;
  pc = starting;
  told = false;
  signaled = false;
  posting = false;
  events = [];
}

filled-IsStart : IsStart filled
filled-IsStart = record {
  ordered = record {
    ring = record {
      log = 2;
      is_pow = refl;
      small = omega arith;
      filled = refl;
      head_in = omega arith;
      tail_in = omega arith;
    };
  };
  state = refl;
  at_start = refl;
  silent = refl;
  nothing_held = refl;
}

abbrev working : DisWq
working = record (filled.wq) { wq_state = wq_running }

joins : join_msq params sci_ok working ≡ done
unfolding join_msq
joins = connect_answered params sci_ok working

some_left : is_drained plain_circ working ≡ false
unfolding is_drained
some_left = refl

abbrev one : Consumed
one = complete_sqe plain_circ completions (message 1 50) wc_success []

-- After the first entry, which was at the last slot.
abbrev wrapped : DisWq
wrapped = step_tail working (message 1 50)

slots : (i : ℕ) → i < 4 → length (get_or wrapped.buf i zero_wqe).page_map_static ≡ 4
slots zero lt = refl
slots (suc zero) lt = refl
slots (suc (suc zero)) lt = refl
slots (suc (suc (suc zero))) lt = refl
slots (suc (suc (suc (suc i)))) lt = absurd (omega arith)

wrapped-IsWq : IsWq wrapped
unfolding circ_next
wrapped-IsWq = record {
  ring = record {
    log = 2;
    is_pow = refl;
    small = omega arith;
    filled = refl;
    head_in = omega arith;
    tail_in = omega arith;
  };
  arrays = slots;
}

space_left : wq_used wrapped + 1 < 4
unfolding circ_next
space_left = omega arith

-- The entry that the request makes, the queue with it, and the run.
posted :
    (wqe : DisWqe) × (wq : DisWq) × (post_one plain_circ no_memory memory wc_send wrapped request
      ≡ some (done, wq))
posted =
    let (wqe, wq, run, more, v, built) =
      post_one_lem plain_circ no_memory memory wc_send domain wrapped request (region ∷ [])
        wrapped-IsWq space_left refl all_in (omega arith) (inl (omega arith)) in
    (wqe, wq, run)

finished : consume_one plain_circ dis_sq completions (message 1 50) (answer sci_ok 50 ∷ []) ≡ one
finished = consume_one_success plain_circ dis_sq completions (message 1 50) []

abbrev ends : System
ends = record {
  wq = posted.1;
  cq = (dis_poll_cq plain_circ one.cq 1).1;
  pc = consuming;
  told = false;
  signaled = false;
  posting = true;
  events = acquire (joined working) ∷ [];
}

abbrev path : Reach plain_circ params no_memory memory filled ends
path =
    let joined_up = next (next here (turn (start refl))) (turn (join sci_ok refl refl joins)) in
    let at_work =
      next (next joined_up (turn (clear refl refl))) (turn (fetch refl refl some_left)) in
    let completed =
      next at_work (turn (finish (answer sci_ok 50 ∷ []) one refl (sym finished) (inl refl))) in
    let freed = next completed (turn (advance refl)) in
    next (next freed (poll 1)) (post wc_send request done posted.1 refl posted.2)

path-IsRoomy : IsRoomy plain_circ params no_memory memory path
path-IsRoomy = omega arith

exactly_once_example :
    map cqe_label (contents completions)
      ++ (map wqe_label (unfinished filled)
          ++ map wqe_label (
              along plain_circ params no_memory memory
                (posts plain_circ params no_memory memory)
                path))
    ≡ map wc_label
        (along plain_circ params no_memory memory (polls plain_circ params no_memory memory) path)
      ++ (map cqe_label (contents ends.cq) ++ map wqe_label (unfinished ends))
exactly_once_example =
    exactly_once plain_circ params no_memory memory filled-IsStart completions-IsValid path
      path-IsRoomy

-- The worker of another queue pair finishes an entry, and its completion is polled.
abbrev other : DisWqe
other = record (message 9 40) { ibqp = 9 }

abbrev after : System
after =
    finished_elsewhere plain_circ params no_memory memory ends dis_sq other (answer sci_ok 40 ∷ [])

abbrev shared :
    Shares plain_circ params no_memory memory filled
      (record after { cq = (dis_poll_cq plain_circ after.cq 1).1 })
shared = broken dis_sq other (answer sci_ok 40 ∷ []) (alone path) (next here (poll 1))

-- The pairs at the addresses 3 and 7.
abbrev Mine : Label → Type 0
Mine l = l.qp / 8 ≡ 0

exactly_once_shared_example :
    IsAccounted {mine = Mine}
      (λ l. ℕ_discrete (l.qp / 8) 0)
      plain_circ
      params
      no_memory
      memory
      shared
exactly_once_shared_example =
    exactly_once_shared {mine = Mine} (λ l. ℕ_discrete (l.qp / 8) 0) plain_circ params no_memory
      memory shared filled-IsStart completions-IsValid
      (path-IsRoomy, (λ e. omega (arith, e)), (tt, tt))
