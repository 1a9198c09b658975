-- ===== src/Cq/Interleave.antt =====
-- dis_poll_cq of driver/dis_verbs.c and dis_wq_post_sqe_cqe and dis_wq_post_rqe_cqe of driver/dis_qp.c, access
-- by access, while they run at the same time on one queue.
--
-- One thread polls. Those that post hold `cqe_lock`, so one of them is inside at a time. The head and
-- the tail that each has loaded are its own, and may be old when they are used. An entry's fields are
-- written before the head is stored with release order, and read after it was loaded with acquire
-- order, so that each of the two is one step.
pub mod Known
pub mod Steps
pub mod Order
pub mod Twice
use dis_kverbs.Common.{ℕ, List, [], ◌∷◌, ◌++◌, ◌≡◌, true, false, ltb, get_or, set}
use dis_kverbs.Kernel.{CircBuf}
use dis_kverbs.Verbs.{WcStatus, DisWqe, DisCqe, DisCq, zero_cqe, circ_next}
use dis_kverbs.Cq.{IbWc, cqe_of, wc_of}

-- A round of dis_poll_cq: before it loads the indices; with both; with the completion set.
pub data Poller : Type 0 where
  outside : Poller
  loaded : ℕ → ℕ → Poller
  read : ℕ → IbWc → Poller

-- The holder of the lock: none; one with both indices; one that wrote the entry at the head.
pub data Poster : Type 0 where
  unlocked : Poster
  locked : DisWqe → WcStatus → ℕ → ℕ → Poster
  written : DisWqe → WcStatus → ℕ → Poster

-- `posted` and `polled` are what the postings have published and the poller has handed out.
pub record Shared : Type 0 where
  pub cq : DisCq
  pub poller : Poller
  pub poster : Poster
  pub posted : List DisCqe
  pub polled : List IbWc

module _ (c : CircBuf) where
  pub data Access (s : Shared) : Shared → Type 0 where
    poll_load : s.poller ≡ outside → Access s (record s { poller = loaded s.cq.head s.cq.tail })
    poll_empty :
        (head tail : ℕ)
        → s.poller ≡ loaded head tail
        → ltb (c.circ_cnt head tail s.cq.cqe_max) 1 ≡ true
        → Access s (record s { poller = outside })
    poll_read :
        (head tail : ℕ)
        → s.poller ≡ loaded head tail
        → ltb (c.circ_cnt head tail s.cq.cqe_max) 1 ≡ false
        → Access s (record s { poller = read tail (wc_of (get_or s.cq.buf tail zero_cqe)) })
    poll_store :
        (tail : ℕ) (wc : IbWc)
        → s.poller ≡ read tail wc
        → Access s (record s {
          cq = record (s.cq) { tail = circ_next tail s.cq.cqe_max };
          poller = outside;
          polled = s.polled ++ wc ∷ [];
        })
    post_load :
        (wqe : DisWqe) (status : WcStatus)
        → s.poster ≡ unlocked
        → Access s (record s { poster = locked wqe status s.cq.head s.cq.tail })
    post_full :
        (wqe : DisWqe) (status : WcStatus) (head tail : ℕ)
        → s.poster ≡ locked wqe status head tail
        → ltb (c.circ_space head tail s.cq.cqe_max) 1 ≡ true
        → Access s (record s { poster = unlocked })
    post_write :
        (wqe : DisWqe) (status : WcStatus) (head tail : ℕ)
        → s.poster ≡ locked wqe status head tail
        → ltb (c.circ_space head tail s.cq.cqe_max) 1 ≡ false
        → Access s (record s {
          cq = record (s.cq) { buf = set s.cq.buf head (cqe_of wqe status) };
          poster = written wqe status head;
        })
    post_store :
        (wqe : DisWqe) (status : WcStatus) (head : ℕ)
        → s.poster ≡ written wqe status head
        → Access s (record s {
          cq = record (s.cq) { head = circ_next head s.cq.cqe_max };
          poster = unlocked;
          posted = s.posted ++ cqe_of wqe status ∷ [];
        })

  pub data Accesses (s : Shared) : Shared → Type 0 where
    none_yet : Accesses s s
    more : {t u : Shared} → Accesses s t → Access t u → Accesses s u
