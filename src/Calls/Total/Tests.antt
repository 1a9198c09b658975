-- ===== src/Calls/Total/Tests.antt =====
-- Two queue pairs, one let go and one posted to, and the theorem at them.
use dis_kverbs.Common.{ℕ, true, Option, some, List, [], ◌∷◌, replicate}
use dis_kverbs.Pd.{DisPd}
use dis_kverbs.Verbs.{Iovec, zero_iovec}
use dis_kverbs.Post.{IbWr}
use dis_kverbs.Qp.Tests.{to_rtr, made_of, all_memory}
use dis_kverbs.SciIf.{answer, sci_ok}
use dis_kverbs.Calls.{
  Call, get_dma_mr, create_cq, poll_cq, create_qp, modify_qp, destroy_qp, post_send, work_sq,
}

abbrev blank : DisPd
blank = record { dev = 0; qp_list = replicate 200 0; mr_list = replicate 100 0; qp_c = 0; mr_c = 0 }

abbrev grant : ℕ → Option (ℕ × List Iovec)
grant n = some (64, replicate n zero_iovec)

-- The first key names the region for DMA, the second none.
abbrev two_segments : IbWr
two_segments = record {
  wr_id = 7;
  num_sge = 2;
  sg_list =
      record { addr = 0x10000; length = 20; lkey = 0 }
      ∷ record { addr = 0x20000; length = 30; lkey = 5 }
      ∷ [];
}

abbrev life : List Call
life =
    get_dma_mr true
    ∷ create_cq 3 true
    ∷ create_qp (record made_of { send_cq = 1; recv_cq = 1 }) all_memory
    ∷ create_qp (record made_of { send_cq = 1; recv_cq = 1 }) all_memory
    ∷ modify_qp 2 6 7 to_rtr
    ∷ destroy_qp 2 [] []
    ∷ modify_qp 1 8 9 to_rtr
    ∷ work_sq 1 (answer sci_ok 20 ∷ [])
    ∷ poll_cq 1 4
    ∷ post_send 1 (two_segments ∷ [])
    ∷ []
