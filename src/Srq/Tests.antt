-- ===== src/Srq/Tests.antt =====
-- A shared receive queue for three requests, and the theorems at it.
use dis_kverbs.Common.{◌≡◌, ◌≤◌, ◌<◌, ◌*◌, refl, arith, true, false, none, [], ◌∷◌}
use dis_kverbs.Kernel.Concrete.{plain_circ, plain_round}
use dis_kverbs.Verbs.{done, fail}
use dis_kverbs.Post.{Mem}
use dis_kverbs.Post.Tests.{queue, request, no_memory}
use dis_kverbs.Worker.Drain.{IsQueue, wq_waiting}
use dis_kverbs.Srq.{DisSrq, SrqAttr, dis_create_srq, dis_query_srq, dis_post_srq_recv}
use dis_kverbs.Srq.Create.{dis_create_srq_lem, post_srq_null}

abbrev blank : DisSrq
blank = record {
  rq = record queue { ibqp = 0; buf = []; head = 0; tail = 0 };
  srq_type = 0;
  srq_limit = 0;
}

abbrev attributes : SrqAttr
attributes = record { srq_type = 0; max_wr = 3; max_sge = 4; srq_limit = 0 }

-- No queue pair is there.
abbrev nowhere : Mem
nowhere = record { pd_of = λ qp. none; mrs = [] }

dis_create_srq_lem_example :
    let (ret, srq) = dis_create_srq plain_round blank attributes true in
    let (ret_err, srq_err) = dis_create_srq plain_round blank attributes false in
    (ret ≡ done)
    × IsQueue srq.rq
    × (wq_waiting srq.rq ≡ [])
    × (3 ≤ srq.rq.wqe_max)
    × (srq.rq.wqe_max < 2 * 3)
    × (dis_query_srq srq ≡ (done, srq.rq.wqe_max, 4, 0))
    × (ret_err ≡ fail 42)
    × (srq_err.rq.buf ≡ [])
dis_create_srq_lem_example =
    dis_create_srq_lem plain_round blank attributes refl refl (omega arith) (omega arith)

post_srq_null_example :
    dis_post_srq_recv plain_circ no_memory nowhere
      (dis_create_srq plain_round blank attributes true).1
      (request ∷ [])
    ≡ none
post_srq_null_example =
    post_srq_null plain_circ no_memory nowhere plain_round blank attributes request [] refl refl
