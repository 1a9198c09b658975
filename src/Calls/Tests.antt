-- ===== src/Calls/Tests.antt =====
-- Regions, a completion queue and a queue pair made, used and let go, and the theorems at them.
use dis_kverbs.Common.{◌≡◌, refl, arith, true, Option, none, some, List, [], ◌∷◌, replicate}
use dis_kverbs.Kernel.Concrete.{plain_circ, plain_round, log_from}
use dis_kverbs.Memory.{load}
use dis_kverbs.Pd.{DisPd, dis_alloc_pd}
use dis_kverbs.Calls.Keys.{keys_used_up}
use dis_kverbs.Mr.{zero_mr, dis_get_dma_mr, dis_dereg_mr}
use dis_kverbs.Cq.{dis_create_cq, dis_poll_cq}
use dis_kverbs.Post.Tests.{no_memory}
use dis_kverbs.Qp.{dis_modify_qp, change_state, start_threads, set_mtu, set_qpn, dis_qp_init}
use dis_kverbs.Qp.Create.{dis_create_qp, new_qp}
use dis_kverbs.Qp.Tests.{to_rtr, made_of, all_memory, queues_at}
use dis_kverbs.SciIf.{answer, sci_ok}
use dis_kverbs.Worker.{dis_wq_consume_all}
use dis_kverbs.Calls.{
  Objects, Call, get_dma_mr, dereg_mr, create_cq, poll_cq, create_qp, modify_qp, work_sq,
  new_objects, on_qp, on_cq, call, calls,
}
use dis_kverbs.Calls.Inv.{IsObjects}
use dis_kverbs.Calls.Steps.{AllSized, calls-IsObjects}

-- As dis_alloc_pd is handed it.
abbrev blank : DisPd
blank = record { dev = 0; qp_list = replicate 200 0; mr_list = replicate 100 0; qp_c = 0; mr_c = 0 }

-- The first region goes before the third comes.
abbrev made : List Call
made =
    get_dma_mr true
    ∷ get_dma_mr true
    ∷ dereg_mr 1
    ∷ get_dma_mr true
    ∷ create_cq 3 true
    ∷ create_qp (record made_of { send_cq = 1; recv_cq = 1 }) all_memory
    ∷ modify_qp 1 8 9 to_rtr
    ∷ work_sq 1 (answer sci_ok 20 ∷ [])
    ∷ poll_cq 1 4
    ∷ []

abbrev run : Option Objects
run = calls plain_circ plain_round no_memory queues_at 9 (new_objects blank 9) made

abbrev end : Objects
end = elim run [ none ↦ new_objects blank 9 | some o ↦ o ]

made-AllSized : AllSized made
made-AllSized =
    (tt, (tt, (tt, (tt, (omega arith, ((omega arith, omega arith), (tt, (tt, (tt, tt)))))))))

run_ends : run ≡ some end
unfolding calls call on_qp on_cq dis_alloc_pd dis_get_dma_mr dis_dereg_mr dis_create_cq dis_poll_cq
    dis_modify_qp change_state start_threads set_mtu set_qpn dis_qp_init dis_create_qp new_qp
    dis_wq_consume_all log_from
run_ends = refl

calls-IsObjects_example : IsObjects end
calls-IsObjects_example =
    calls-IsObjects plain_circ plain_round no_memory queues_at 9 blank 9 made refl refl
      made-AllSized run_ends

-- All keys are given out, and two regions are live.
abbrev spent : Objects
spent = record {
  pd = record blank { mr_c = 100 };
  mrs = some zero_mr ∷ some (record zero_mr { lkey = 1 }) ∷ [];
  cqs = [];
  qps = [];
}

abbrev left : Objects
left = record spent { mrs = none ∷ some (record zero_mr { lkey = 1 }) ∷ [] }

spent_ends :
    calls plain_circ plain_round no_memory queues_at 9 spent (dereg_mr 1 ∷ get_dma_mr true ∷ [])
    ≡ some left
unfolding calls call dis_get_dma_mr dis_dereg_mr
spent_ends = refl

keys_used_up_example : load spent.mrs 2 ≡ some (record zero_mr { lkey = 1 })
keys_used_up_example =
    keys_used_up plain_circ plain_round no_memory queues_at 9 spent
      (dereg_mr 1 ∷ get_dma_mr true ∷ []) 2 (record zero_mr { lkey = 1 }) (tt, (tt, tt)) refl
      spent_ends refl
