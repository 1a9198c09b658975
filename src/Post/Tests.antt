-- ===== src/Post/Tests.antt =====
-- Runs of the posting functions, and the theorems at concrete requests.
use dis_kverbs.Common.{
  ℕ, zero, suc, ◌≡◌, ◌+◌, ◌*◌, ◌<◌, refl, arith, false, Option, none, some, List, [], ◌∷◌, ◌++◌,
  replicate, get_or, length, inl, tabulate,
}
use dis_kverbs.Kernel.Concrete.{plain_circ}
use dis_kverbs.Pd.{DisPd}
use dis_kverbs.Verbs.{
  Ret, done, Iovec, DisMr, DisWqe, DisWq, wc_send, wq_empty, wq_initialized, dis_sq, zero_wqe,
  zero_iovec, iov_static,
}
use dis_kverbs.Mr.Lookup.{lookup_mr}
use dis_kverbs.Post.{
  IbSge, IbWr, Mem, Fill, post_one, build_wqe, map_counted, fill_stored, choose_store, fill_wqe,
  fill_sges, fill_map, fill_pages, put_chunk, chunk, count_sges, map_sge, put_pages, init_wqe,
}
use dis_kverbs.Post.Spec.{AllIn, phys, pages_touched}
use dis_kverbs.Post.Loop.{Appended, fill_pages_lem}
use dis_kverbs.Post.Build.{IsWq, wq_contents, IsBuilt}
use dis_kverbs.Post.Correct.{post_one_lem}
use dis_kverbs.Post.Refused.{post_one_refused, post_one_bad_key}

abbrev page : ℕ → Iovec
page a = record { iov_base = a; iov_len = 4096 }

-- 5000 bytes of user memory at 0x7000064, in two pages.
abbrev pub region : DisMr
region = record {
  lkey = 0;
  ibumem = 77;
  pages = page 0x10000 ∷ page 0x30000 ∷ [];
  mr_va = 0x7000064;
  mr_va_offset = 0x64;
  mr_length = 5000;
  page_count = 2;
  is_dma = false;
}

abbrev pub domain : DisPd
domain = record {
  dev = 9;
  qp_list = replicate 200 0;
  mr_list = 1 ∷ replicate 99 0;
  qp_c = 100;
  mr_c = 1;
}

abbrev pub memory : Mem
memory = record { pd_of = λ qp. some domain; mrs = some region ∷ [] }

abbrev pub queue : DisWq
queue = record {
  cq = 21;
  ibqp = 3;
  buf = replicate 4 zero_wqe;
  head = 3;
  tail = 3;
  thread = 0;
  sci_msq = 11;
  wq_flag = wq_empty;
  wq_state = wq_initialized;
  wq_type = dis_sq;
  wqe_max = 4;
  sge_max = 4;
  inline_max = 0;
  mtu = 4096;
  l_qpn = 100;
  r_qpn = 100;
}

-- 200 bytes from byte 4000 of the region's first page on: the pages 0 and 1.
abbrev pub segment : IbSge
segment = record { addr = 0x7000fa0; length = 200; lkey = 0 }

abbrev pub request : IbWr
request = record { wr_id = 5; num_sge = 1; sg_list = segment ∷ [] }

abbrev pub no_memory : ℕ → Option (ℕ × List Iovec)
no_memory n = none

slots : (i : ℕ) → i < 4 → length (get_or (replicate 4 zero_wqe) i zero_wqe).page_map_static ≡ 4
slots zero lt = refl
slots (suc zero) lt = refl
slots (suc (suc zero)) lt = refl
slots (suc (suc (suc zero))) lt = refl
slots (suc (suc (suc (suc i)))) lt = absurd (omega arith)

pub queue-IsWq : IsWq queue
queue-IsWq = record {
  ring = record {
    log = 2;
    is_pow = refl;
    small = omega arith;
    filled = refl;
    head_in = omega arith;
    tail_in = omega arith;
  };
  arrays = slots;
}

-- The two pieces of the segment, in the slot's own array.
pieces : Option (Ret × DisWqe)
pieces = build_wqe plain_circ no_memory memory wc_send domain queue request

pieces_lem :
    pieces
    ≡ some (
      done,
      record zero_wqe {
        ibqp = 3;
        page_map_static =
            record { iov_base = 0x10fa0; iov_len = 96 }
            ∷ record { iov_base = 0x30000; iov_len = 104 }
            ∷ zero_iovec
            ∷ zero_iovec
            ∷ [];
        sci_msq = 11;
        iov = iov_static 0;
        iovlen = 2;
        wr_id = 5;
        byte_len = 200;
      },
    )
unfolding pieces build_wqe map_counted fill_stored choose_store fill_wqe fill_sges fill_map
    fill_pages put_chunk chunk count_sges lookup_mr map_sge put_pages init_wqe
pieces_lem = refl

pub all_in : AllIn memory.mrs domain (region ∷ []) (segment ∷ [])
unfolding lookup_mr
all_in = (
  refl,
  record { not_dma = refl; offset_in = omega arith; covered = omega arith; few = omega arith },
  record { starts = omega arith; ends = omega arith; word = omega arith },
  tt,
)

post_one_lem_example :
    (wqe : DisWqe) × (wq : DisWq) × (post_one plain_circ no_memory memory wc_send queue request
      ≡ some (done, wq))
    × (wq_contents wq ≡ wq_contents queue ++ wqe ∷ [])
    × IsWq wq
    × IsBuilt wc_send queue request (region ∷ []) wqe
post_one_lem_example =
    post_one_lem plain_circ no_memory memory wc_send domain queue request (region ∷ []) queue-IsWq
      (omega arith) refl all_in (omega arith) (inl (omega arith))

-- Three entries wait in four slots.
abbrev full_queue : DisWq
full_queue = record queue { tail = 0 }

full-IsWq : IsWq full_queue
full-IsWq = record {
  ring = record {
    log = 2;
    is_pow = refl;
    small = omega arith;
    filled = refl;
    head_in = omega arith;
    tail_in = omega arith;
  };
  arrays = slots;
}

post_one_refused_example :
    ◌≡◌ {A = ℕ} 42 42
    × (wq_contents full_queue ≡ wq_contents full_queue)
    × ◌≡◌ {A = ℕ} 3 3
    × ◌≡◌ {A = ℕ} 0 0
unfolding post_one
post_one_refused_example =
    post_one_refused plain_circ no_memory memory wc_send full_queue request 42 full_queue full-IsWq
      refl

-- The second segment's key lies behind the table.
abbrev wild_request : IbWr
wild_request = record request {
  num_sge = 2;
  sg_list = segment ∷ record segment { lkey = 100 } ∷ [];
}

post_one_bad_key_example : post_one plain_circ no_memory memory wc_send queue wild_request ≡ none
unfolding lookup_mr
post_one_bad_key_example =
    post_one_bad_key plain_circ no_memory memory wc_send domain queue wild_request (segment ∷ [])
      (record segment { lkey = 100 }) [] queue-IsWq (omega arith) refl refl ((_, refl), tt)
      (inl (omega arith))

abbrev empty_array : Fill
empty_array = record { cells = replicate 4 zero_iovec; pos = 0; byte_len = 0 }

-- Twelve bytes over the border of the two pages.
fill_pages_lem_example :
    (f' : Fill) × (fill_pages 13 region.pages 0 4090 12 empty_array ≡ some f')
    × Appended empty_array f'
        (pages_touched 4090 12)
        12
        (tabulate (λ j. phys region.pages (0 * 4096 + 4090 + j)) 12)
unfolding pages_touched
fill_pages_lem_example =
    fill_pages_lem 13 region.pages 0 4090 12 empty_array (ground arith) (ground arith)
      (ground arith) (ground arith) (ground arith)
