-- ===== src/Post/Interleave/Tests.antt =====
-- A second request that is posted while the worker takes the first, two threads that post, and the
-- theorems at them.
use dis_kverbs.Common.{◌≡◌, refl, arith, inl, some, [], ◌∷◌, ◌++◌, set}
use dis_kverbs.Kernel.Concrete.{plain_circ}
use dis_kverbs.SciIf.{answer, sci_ok}
use dis_kverbs.Verbs.{done, circ_next, wc_send, dis_sq, DisWqe, DisWq, DisCq}
use dis_kverbs.Post.{IbWr, build_wqe}
use dis_kverbs.Worker.{consume_one}
use dis_kverbs.Post.Build.{IsBuilt, wq_contents, build_wqe_lem}
use dis_kverbs.Post.Tests.{region, domain, memory, queue, request, no_memory, queue-IsWq, all_in}
use dis_kverbs.Qp.PostList.{IsPostable}
use dis_kverbs.Worker.Tail.{IsQueue}
use dis_kverbs.Post.Interleave.{
  idle, away, WqShared, post_load, post_fill, post_publish, work_look, work_fetch, work_consume,
  work_release, WqAccesses, none_yet, more,
}
use dis_kverbs.Post.Interleave.Known.{unfinished}
use dis_kverbs.Post.Interleave.Order.{posts_in_order}
use dis_kverbs.Post.Interleave.Twice.{WqPairSteps, posted_over}

abbrev nobody : WqShared
nobody = record { wq = queue; poster = idle; worker = away; posted = []; taken = [] }

acceptable : IsPostable plain_circ no_memory memory domain (request, region ∷ [])
acceptable = record { inside = all_in; few = omega arith; granted = inl (omega arith) }

-- The same bytes, with another id.
abbrev second : IbWr
second = record request { wr_id = 6 }

abbrev also_acceptable : IsPostable plain_circ no_memory memory domain (second, region ∷ [])
also_acceptable = record { inside = all_in; few = omega arith; granted = inl (omega arith) }

posted_over_example :
    (wa : DisWqe) × (wb : DisWqe) × (t : WqShared) × IsBuilt wc_send queue request (region ∷ []) wa
    × IsBuilt wc_send queue second (region ∷ []) wb
    × WqPairSteps plain_circ no_memory memory wc_send domain
        (record { shared = nobody; other = idle })
        (record { shared = t; other = idle })
    × (t.posted ≡ wa ∷ wb ∷ [])
    × (wq_contents t.wq ≡ wq_contents queue ++ wb ∷ [])
posted_over_example =
    posted_over plain_circ no_memory memory wc_send domain nobody (request, region ∷ [])
      (second, region ∷ []) queue-IsWq (omega arith) refl acceptable also_acceptable

first-IsBuilt :
    (w : DisWqe) × (build_wqe plain_circ no_memory memory wc_send domain queue request
      ≡ some (done, w))
    × IsBuilt wc_send queue request (region ∷ []) w
first-IsBuilt =
    build_wqe_lem plain_circ no_memory memory wc_send domain queue request (region ∷ []) all_in
      (omega arith) (inl (omega arith)) refl

abbrev no_cq : DisCq
no_cq = record { ib_cqe = 0; buf = []; head = 0; tail = 0; cqe_max = 0 }

-- The queue once the first request's entry was taken.
abbrev later : DisWq
later = record queue {
  buf =
      set (set queue.buf 3 first-IsBuilt.0) 3
        (consume_one plain_circ dis_sq no_cq first-IsBuilt.0 (answer sci_ok 0 ∷ [])).wqe;
  head = 0;
  tail = 0;
}

second-IsBuilt :
    (w : DisWqe) × (build_wqe plain_circ no_memory memory wc_send domain later second
      ≡ some (done, w))
    × IsBuilt wc_send later second (region ∷ []) w
second-IsBuilt =
    build_wqe_lem plain_circ no_memory memory wc_send domain later second (region ∷ []) all_in
      (omega arith) (inl (omega arith)) refl

-- The thread loads the indices for the second request before the worker lets the first go, and writes
-- its entry after that.
side_by_side : (t : WqShared) × WqAccesses plain_circ no_memory memory wc_send domain nobody t
unfolding circ_next
side_by_side =
    let posted =
      more
        (more (more none_yet (post_load request refl))
          (post_fill request 3 3 first-IsBuilt.0 refl refl first-IsBuilt.1))
        (post_publish first-IsBuilt.0 3 refl) in
    let both_loaded = more (more posted (work_look refl)) (post_load second refl) in
    let taken =
      more
        (more (more both_loaded (work_fetch 0 refl refl))
          (work_consume first-IsBuilt.0 no_cq (answer sci_ok 0 ∷ []) refl))
        (work_release first-IsBuilt.0 refl) in
    (
      _,
      more (more taken (post_fill second 0 3 second-IsBuilt.0 refl refl second-IsBuilt.1))
          (post_publish second-IsBuilt.0 0 refl),
    )

posts_in_order_example :
    IsQueue side_by_side.0.wq
    × (side_by_side.0.posted
        ≡ side_by_side.0.taken ++ unfinished side_by_side.0.wq side_by_side.0.worker)
posts_in_order_example =
    posts_in_order plain_circ no_memory memory wc_send domain (record { ring = queue-IsWq.ring })
      refl refl refl refl side_by_side.1
