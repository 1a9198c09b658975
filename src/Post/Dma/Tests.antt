-- ===== src/Post/Dma/Tests.antt =====
-- A request of two segments for DMA, and the theorem at it.
use dis_kverbs.Common.{◌≡◌, refl, arith, true, some, List, [], ◌∷◌, ◌++◌}
use dis_kverbs.Kernel.Concrete.{plain_circ}
use dis_kverbs.Verbs.{done, DisMr, DisWqe, DisWq, wc_send}
use dis_kverbs.Mr.{zero_mr}
use dis_kverbs.Mr.Lookup.{lookup_mr}
use dis_kverbs.Post.{IbSge, IbWr, Mem, post_one}
use dis_kverbs.Post.Build.{IsWq, wq_contents}
use dis_kverbs.Post.Dma.{AllDma, IsDmaBuilt, post_one_dma}
use dis_kverbs.Post.Tests.{domain, queue, queue-IsWq, no_memory}

abbrev whole_memory : DisMr
whole_memory = record zero_mr { is_dma = true }

abbrev dma_memory : Mem
dma_memory = record { pd_of = λ qp. some domain; mrs = some whole_memory ∷ [] }

abbrev pieces : List IbSge
pieces =
    record { addr = 0x5000; length = 300; lkey = 0 }
    ∷ record { addr = 0x9000; length = 70000; lkey = 0 }
    ∷ []

abbrev two_pieces : IbWr
two_pieces = record { wr_id = 8; num_sge = 2; sg_list = pieces }

all_dma : AllDma dma_memory.mrs domain pieces
unfolding lookup_mr
all_dma = ((whole_memory, refl, refl), ((whole_memory, refl, refl), tt))

post_one_dma_example :
    (wqe : DisWqe) × (wq' : DisWq) × (post_one plain_circ no_memory dma_memory wc_send queue
        two_pieces
      ≡ some (done, wq'))
    × (wq_contents wq' ≡ wq_contents queue ++ wqe ∷ [])
    × IsWq wq'
    × IsDmaBuilt wc_send queue two_pieces wqe
post_one_dma_example =
    post_one_dma plain_circ no_memory dma_memory wc_send domain queue two_pieces queue-IsWq
      (omega arith) refl all_dma
