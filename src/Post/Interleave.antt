-- ===== src/Post/Interleave.antt =====
-- dis_qp_post_one_sqe and dis_qp_post_one_rqe beside dis_wq_consume_all of driver/dis_qp.c, access by access,
-- while they run at the same time on one work queue.
--
-- The head and the tail that each side has loaded are its own, and may be old when they are used. An
-- entry's fields are written before the head is stored with release order, and read after it was
-- loaded with acquire order, so that writing the entry is one step. The memory regions stay as they
-- are meanwhile.
pub mod Known
pub mod Steps
pub mod Order
pub mod Alone
pub mod Twice
mod Tests
use dis_kverbs.Common.{ℕ, List, [], ◌∷◌, ◌++◌, Option, some, ◌≡◌, true, false, ltb, get_or, set}
use dis_kverbs.Kernel.{CircBuf}
use dis_kverbs.Pd.{DisPd}
use dis_kverbs.Verbs.{done, fail, Iovec, WcOpcode, DisWqe, DisCq, DisWq, zero_wqe, circ_next}
use dis_kverbs.SciIf.{SciReply}
use dis_kverbs.Worker.{consume_one}
use dis_kverbs.Post.{IbWr, Mem, build_wqe}

-- A thread that posts: before it loads the indices; with both; with the entry written at its head.
pub data WqPoster : Type 0 where
  idle : WqPoster
  inside : IbWr → ℕ → ℕ → WqPoster
  filled : DisWqe → ℕ → WqPoster

-- A round of the worker: before it loads the head; with it; with the entry at the tail; with that entry
-- consumed.
pub data WqWorker : Type 0 where
  away : WqWorker
  looked : ℕ → WqWorker
  fetched : DisWqe → WqWorker
  consumed : DisWqe → WqWorker

-- `posted` and `taken` are the entries that postings have published and the worker has let go, as they
-- were posted.
pub record WqShared : Type 0 where
  pub wq : DisWq
  pub poster : WqPoster
  pub worker : WqWorker
  pub posted : List DisWqe
  pub taken : List DisWqe

module _ (c : CircBuf) (kmalloc : ℕ → Option (ℕ × List Iovec)) (mem : Mem) (opcode : WcOpcode)
    (pd : DisPd) where
  pub data WqAccess (s : WqShared) : WqShared → Type 0 where
    post_load :
        (wr : IbWr)
        → s.poster ≡ idle
        → WqAccess s (record s { poster = inside wr s.wq.head s.wq.tail })
    post_full :
        (wr : IbWr) (head tail : ℕ)
        → s.poster ≡ inside wr head tail
        → ltb (c.circ_space head tail s.wq.wqe_max) 1 ≡ true
        → WqAccess s (record s { poster = idle })
    post_refuse :
        (wr : IbWr) (head tail n : ℕ) (wqe : DisWqe)
        → s.poster ≡ inside wr head tail
        → ltb (c.circ_space head tail s.wq.wqe_max) 1 ≡ false
        → build_wqe c kmalloc mem opcode pd (record (s.wq) { head = head }) wr ≡ some (fail n, wqe)
        → WqAccess s
            (record s { wq = record (s.wq) { buf = set s.wq.buf head wqe }; poster = idle })
    post_fill :
        (wr : IbWr) (head tail : ℕ) (wqe : DisWqe)
        → s.poster ≡ inside wr head tail
        → ltb (c.circ_space head tail s.wq.wqe_max) 1 ≡ false
        → build_wqe c kmalloc mem opcode pd (record (s.wq) { head = head }) wr ≡ some (done, wqe)
        → WqAccess s (record s {
          wq = record (s.wq) { buf = set s.wq.buf head wqe };
          poster = filled wqe head;
        })
    post_publish :
        (wqe : DisWqe) (head : ℕ)
        → s.poster ≡ filled wqe head
        → WqAccess s (record s {
          wq = record (s.wq) { head = circ_next head s.wq.wqe_max };
          poster = idle;
          posted = s.posted ++ wqe ∷ [];
        })
    work_look : s.worker ≡ away → WqAccess s (record s { worker = looked s.wq.head })
    work_empty :
        (head : ℕ)
        → s.worker ≡ looked head
        → ltb (c.circ_cnt head s.wq.tail s.wq.wqe_max) 1 ≡ true
        → WqAccess s (record s { worker = away })
    work_fetch :
        (head : ℕ)
        → s.worker ≡ looked head
        → ltb (c.circ_cnt head s.wq.tail s.wq.wqe_max) 1 ≡ false
        → WqAccess s (record s { worker = fetched (get_or s.wq.buf s.wq.tail zero_wqe) })
    work_consume :
        (wqe : DisWqe) (cq : DisCq) (replies : List SciReply)
        → s.worker ≡ fetched wqe
        → WqAccess s (record s {
          wq = record (s.wq) {
            buf = set s.wq.buf s.wq.tail (consume_one c s.wq.wq_type cq wqe replies).wqe;
          };
          worker = consumed wqe;
        })
    work_release :
        (wqe : DisWqe)
        → s.worker ≡ consumed wqe
        → WqAccess s (record s {
          wq = record (s.wq) { tail = circ_next s.wq.tail s.wq.wqe_max };
          worker = away;
          taken = s.taken ++ wqe ∷ [];
        })

  pub data WqAccesses (s : WqShared) : WqShared → Type 0 where
    none_yet : WqAccesses s s
    more : {t u : WqShared} → WqAccesses s t → WqAccess t u → WqAccesses s u
