-- ===== src/Post/Interleave/Known.antt =====
-- What the thread that posts and the worker know of the queue while the other side moves.
use dis_kverbs.Common.{
  ℕ, ◌+◌, ◌≤◌, ◌<◌, ◌≡◌, ◌≢◌, ap, sym, ◌∙◌, arith, List, [], ◌∷◌, ◌++◌, get_or, set, get_or-set_ne,
}
use dis_kverbs.Common.Ring.{ring_used, ring_contents}
use dis_kverbs.Common.Mask.{used_self, used_after_pop}
use dis_kverbs.Verbs.{DisWqe, DisWq, zero_wqe, circ_next}
use dis_kverbs.Circ.{circ_next-tail}
use dis_kverbs.Worker.Tail.{IsQueue}
use dis_kverbs.Post.Interleave.{
  WqPoster, idle, inside, filled, WqWorker, away, looked, fetched, consumed, WqShared,
}

abbrev pub waiting : DisWq → ℕ
waiting wq = ring_used wq.wqe_max wq.head wq.tail

abbrev pub oldest : DisWq → DisWqe
oldest wq = get_or wq.buf wq.tail zero_wqe

-- The entries from an index on.
abbrev pub from : DisWq → ℕ → List DisWqe
from wq t = ring_contents zero_wqe wq.buf wq.wqe_max wq.head t

-- What the thread that posts knows: its head is the queue's, there are no more entries than it saw, and
-- once it has written one there is room for it.
abbrev pub IsPosting : DisWq → WqPoster → Type 0
IsPosting wq idle = Unit
IsPosting wq (inside wr head tail) =
    (head ≡ wq.head) × (tail < wq.wqe_max) × (waiting wq ≤ ring_used wq.wqe_max head tail)
IsPosting wq (filled wqe head) =
    (head ≡ wq.head) × (waiting wq + 1 < wq.wqe_max) × (get_or wq.buf wq.head zero_wqe ≡ wqe)

-- What the worker knows: the entries that it saw are still there, and the entry that it fetched is the
-- oldest one.
abbrev pub IsWorking : DisWq → WqWorker → Type 0
IsWorking wq away = Unit
IsWorking wq (looked head) = (head < wq.wqe_max) × (ring_used wq.wqe_max head wq.tail ≤ waiting wq)
IsWorking wq (fetched wqe) = (0 < waiting wq) × (wqe ≡ oldest wq)
IsWorking wq (consumed wqe) = 0 < waiting wq

-- The entry that the worker holds, as it was posted, and where those behind it begin.
abbrev pub held : WqWorker → List DisWqe
held (consumed wqe) = wqe ∷ []
held _ = []

abbrev pub begin : DisWq → WqWorker → ℕ
begin wq (consumed wqe) = circ_next wq.tail wq.wqe_max
begin wq _ = wq.tail

-- The entries that were published and not let go, as they were posted.
abbrev pub unfinished : DisWq → WqWorker → List DisWqe
unfinished wq w = held w ++ from wq (begin wq w)

pub record IsWqShared (s : WqShared) : Type 0 where
  pub ordered : IsQueue s.wq
  pub posting : IsPosting s.wq s.poster
  pub working : IsWorking s.wq s.worker
  pub in_order : s.posted ≡ s.taken ++ unfinished s.wq s.worker

-- Where the others begin lies in the queue, with no more entries from there.
pub begin_in :
    (wq : DisWq) (w : WqWorker)
    → IsQueue wq
    → IsWorking wq w
    → (begin wq w < wq.wqe_max) × (ring_used wq.wqe_max wq.head (begin wq w) ≤ waiting wq)
begin_in wq away v k = (v.ring.tail_in, omega arith)
begin_in wq (looked head) v k = (v.ring.tail_in, omega arith)
begin_in wq (fetched wqe) v k = (v.ring.tail_in, omega arith)
begin_in wq (consumed wqe) v k =
    let r = v.ring in
    rw (circ_next-tail r) (
      omega (arith, r.tail_in),
      omega (arith, used_after_pop wq.wqe_max wq.head wq.tail r.head_in r.tail_in k),
    )

-- With an entry in the queue the two indices differ.
pub apart : (wq : DisWq) → 0 < waiting wq → wq.head ≢ wq.tail
apart wq some_used e =
    omega (arith, used_self wq.wqe_max wq.tail, ap (λ h. ring_used wq.wqe_max h wq.tail) e)

-- What a write to the slot at the head leaves alone.
pub IsWorking-write :
    (wq : DisWq) (e : DisWqe) (w : WqWorker)
    → IsWorking wq w
    → IsWorking (record wq { buf = set wq.buf wq.head e }) w
IsWorking-write wq e away k = k
IsWorking-write wq e (looked head) k = k
IsWorking-write wq e (fetched wqe) (some_used, same) =
    (some_used, same ∙ sym (get_or-set_ne wq.buf wq.head wq.tail e zero_wqe (apart wq some_used)))
IsWorking-write wq e (consumed wqe) k = k

-- What storing the head changes for the worker.
pub IsWorking-push :
    (wq : DisWq) (head : ℕ) (w : WqWorker)
    → waiting wq ≤ waiting (record wq { head = head })
    → IsWorking wq w
    → IsWorking (record wq { head = head }) w
IsWorking-push wq head away grows k = k
IsWorking-push wq head (looked h) grows (inside_it, there) = (inside_it, omega arith)
IsWorking-push wq head (fetched wqe) grows (some_used, same) = (omega arith, same)
IsWorking-push wq head (consumed wqe) grows k = omega arith

-- What consuming the entry at the tail, and storing the tail, change for the thread that posts.
pub IsPosting-consume :
    (wq : DisWq) (e : DisWqe) (p : WqPoster)
    → 0 < waiting wq
    → IsPosting wq p
    → IsPosting (record wq { buf = set wq.buf wq.tail e }) p
IsPosting-consume wq e idle some_used k = k
IsPosting-consume wq e (inside wr head tail) some_used k = k
IsPosting-consume wq e (filled wqe head) some_used (same, room, slot) = (
  same,
  room,
  get_or-set_ne wq.buf wq.tail wq.head e zero_wqe (λ q. apart wq some_used (sym q)) ∙ slot,
)

pub IsPosting-pop :
    (wq : DisWq) (tail : ℕ) (p : WqPoster)
    → waiting (record wq { tail = tail }) ≤ waiting wq
    → IsPosting wq p
    → IsPosting (record wq { tail = tail }) p
IsPosting-pop wq tail idle shrinks k = k
IsPosting-pop wq tail (inside wr h t) shrinks (same, inside_it, few) =
    (same, inside_it, omega arith)
IsPosting-pop wq tail (filled wqe h) shrinks (same, room, slot) = (same, omega arith, slot)
