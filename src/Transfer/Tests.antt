-- ===== src/Transfer/Tests.antt =====
-- Two requests that go through the driver.
use dis_kverbs.Common.{
  ℕ, zero, suc, ◌<◌, length, get_or, take, tabulate, inl, true, ◌+◌, ◌≡◌, refl, arith, some, [],
  ◌∷◌, replicate,
}
use dis_kverbs.Kernel.Concrete.{plain_circ}
use dis_kverbs.Verbs.{DisWqe, zero_wqe, done, DisWq, DisCq, zero_cqe, wc_send}
use dis_kverbs.Cq.Inv.{IsValid}
use dis_kverbs.Post.{IbSge, cells_of, post_one}
use dis_kverbs.Post.Spec.{all_bytes, pages_touched}
use dis_kverbs.Mr.{MrOut, dis_reg_user_mr}
use dis_kverbs.Mr.Tests.{two_pages, two_pages-IsUmem}
use dis_kverbs.Transfer.Registered.{pinned_at, one_segment, seen, reg-post}
use dis_kverbs.Post.Build.{IsWq, wq_used, wq_contents}
use dis_kverbs.Worker.{Drained, dis_wq_consume_all}
use dis_kverbs.Transfer.Stale.{freed_again}
use dis_kverbs.Post.Tests.{queue, region, all_in, domain, memory, request, no_memory, queue-IsWq}
use dis_kverbs.Qp.{dis_post_send, dis_post_recv}
use dis_kverbs.Qp.Tests.{pair, requests, postable}
use dis_kverbs.SciIf.{answer, sci_ok}
use dis_kverbs.Transfer.Nodes.{Node, IsReady, IsDelivered, deliver}
use dis_kverbs.Transfer.{IsTransferred, send-poll}

abbrev completions : DisCq
completions = record { ib_cqe = 4; buf = replicate 4 zero_cqe; head = 2; tail = 2; cqe_max = 4 }

completions-IsValid : IsValid completions
completions-IsValid = record {
  ring = record {
    log = 2;
    is_pow = refl;
    small = omega arith;
    filled = refl;
    head_in = omega arith;
    tail_in = omega arith;
  };
}

send-poll_example :
    (wq : DisWq) × (dis_post_send plain_circ no_memory memory pair (request ∷ request ∷ [])
      ≡ some (done, record pair { sq = wq }))
    × IsTransferred plain_circ wc_send 3 wq completions requests (answer sci_ok 0 ∷ []) 8
send-poll_example =
    send-poll plain_circ no_memory memory domain pair completions requests (answer sci_ok 0) [] 8
      queue-IsWq refl (omega arith) refl postable completions-IsValid refl (omega arith)
      (omega arith)

-- The next slot's array was freed at the last request.
abbrev reused : DisWq
reused = record queue {
  buf = zero_wqe ∷ zero_wqe ∷ zero_wqe ∷ record zero_wqe { page_map_dynamic = 501 } ∷ [];
}

slots : (i : ℕ) → i < 4 → length (get_or reused.buf i zero_wqe).page_map_static ≡ 4
slots zero lt = refl
slots (suc zero) lt = refl
slots (suc (suc zero)) lt = refl
slots (suc (suc (suc zero))) lt = refl
slots (suc (suc (suc (suc i)))) lt = absurd (omega arith)

reused-IsWq : IsWq reused
reused-IsWq = record {
  ring = record {
    log = 2;
    is_pow = refl;
    small = omega arith;
    filled = refl;
    head_in = omega arith;
    tail_in = omega arith;
  };
  arrays = slots;
}

freed_again_example :
    (wq' : DisWq) × (d : Drained) × (post_one plain_circ no_memory memory wc_send reused request
      ≡ some (done, wq'))
    × (dis_wq_consume_all plain_circ 4 wq' completions (answer sci_ok 0 ∷ []) ≡ some d)
    × (d.freed ≡ 501 ∷ [])
    × ((get_or d.wq.buf 3 zero_wqe).page_map_dynamic ≡ 501)
    × (wq_used d.wq ≡ 0)
freed_again_example =
    freed_again plain_circ no_memory memory wc_send domain reused request (region ∷ []) 500
      completions (answer sci_ok 0) [] reused-IsWq refl (omega arith) refl all_in (omega arith) refl

abbrev here : Node
here = record { kmalloc = no_memory; mem = memory; pd = domain }

ready : IsReady plain_circ here queue completions requests
ready = record {
  ordered = queue-IsWq;
  none_wait = refl;
  space = omega arith;
  found = refl;
  postable = postable;
  valid = completions-IsValid;
  none_there = refl;
  room = omega arith;
}

deliver_example :
    (sq : DisWq) × (rq : DisWq) × (dis_post_send plain_circ no_memory memory pair
        (request ∷ request ∷ [])
      ≡ some (done, record pair { sq = sq }))
    × (dis_post_recv plain_circ no_memory memory pair (request ∷ request ∷ [])
        ≡ some (done, record pair { rq = rq }))
    × IsTransferred plain_circ wc_send 3 sq completions requests (answer sci_ok 0 ∷ []) 8
    × IsDelivered plain_circ 3 rq completions requests requests (answer sci_ok 0 ∷ []) 2
deliver_example =
    deliver plain_circ here here pair pair completions completions requests requests
      (answer sci_ok 0) (answer sci_ok 0) [] [] 8 2 ready ready refl (omega arith) (omega arith)

-- 200 bytes over the end of the first page.
abbrev across : IbSge
across = record { addr = 0x7f3c; length = 200; lkey = 1 }

reg-post_example :
    (out : MrOut) × (wqe : DisWqe) × (wq' : DisWq) × (dis_reg_user_mr domain
        (some region ∷ [])
        5000
        0x7000
        (record { mr_alloc = true; umem_get = some two_pages; pages_alloc = true })
      ≡ some out)
    × (post_one plain_circ no_memory (seen out) wc_send queue (one_segment 5 across)
        ≡ some (done, wq'))
    × (wq_contents wq' ≡ wqe ∷ [])
    × IsWq wq'
    × (all_bytes (take 2 (cells_of wqe.iov wqe))
        ≡ tabulate (λ j. pinned_at two_pages (4000 + j)) 200)
unfolding pages_touched
reg-post_example =
    reg-post plain_circ no_memory domain (some region ∷ []) 5000 0x7000 two_pages wc_send queue 5
      across (record { table = refl; keys = omega arith }) (omega arith) two_pages-IsUmem queue-IsWq
      (omega arith) refl (omega arith) (omega arith) (omega arith) (omega arith) (inl (omega arith))
