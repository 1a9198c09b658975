-- ===== src/Cq/Interleave/Known.antt =====
-- What the poller and the holder of the lock know of the queue while the other side moves.
use dis_kverbs.Common.{
  ℕ, ◌+◌, ◌≤◌, ◌<◌, ◌≡◌, ◌≢◌, ap, sym, ◌∙◌, arith, List, ◌++◌, map, get_or, set, get_or-set_ne,
}
use dis_kverbs.Common.Ring.{ring_used}
use dis_kverbs.Common.Mask.{used_self}
use dis_kverbs.Verbs.{DisCqe, DisCq, zero_cqe}
use dis_kverbs.Circ.{IsRing}
use dis_kverbs.Cq.{cqe_of, wc_of}
use dis_kverbs.Cq.Inv.{IsValid, used, contents}
use dis_kverbs.Cq.Interleave.{
  Poller, outside, loaded, read, Poster, unlocked, locked, written, Shared,
}

-- What the poller knows: its tail is the queue's, the entries that it saw are still there, and the
-- completion that it set is that of the oldest one.
abbrev pub IsSeen : DisCq → Poller → Type 0
IsSeen cq outside = Unit
IsSeen cq (loaded head tail) =
    (tail ≡ cq.tail) × (head < cq.cqe_max) × (ring_used cq.cqe_max head tail ≤ used cq)
IsSeen cq (read tail wc) =
    (tail ≡ cq.tail) × (0 < used cq) × (wc ≡ wc_of (get_or cq.buf cq.tail zero_cqe))

-- What the holder of the lock knows: its head is the queue's, there are no more entries than it saw, and
-- once it has written one there is room for it.
abbrev pub IsHeld : DisCq → Poster → Type 0
IsHeld cq unlocked = Unit
IsHeld cq (locked wqe status head tail) =
    (head ≡ cq.head) × (tail < cq.cqe_max) × (used cq ≤ ring_used cq.cqe_max head tail)
IsHeld cq (written wqe status head) =
    (head ≡ cq.head)
    × (used cq + 1 < cq.cqe_max)
    × (get_or cq.buf cq.head zero_cqe ≡ cqe_of wqe status)

pub record IsShared (s : Shared) : Type 0 where
  pub valid : IsValid s.cq
  pub seen : IsSeen s.cq s.poller
  pub held : IsHeld s.cq s.poster
  pub in_order : map wc_of s.posted ≡ s.polled ++ map wc_of (contents s.cq)

-- With an entry in the queue the two indices differ.
pub apart : (cq : DisCq) → 0 < used cq → cq.head ≢ cq.tail
apart cq some_used e =
    omega (arith, used_self cq.cqe_max cq.tail, ap (λ h. ring_used cq.cqe_max h cq.tail) e)

abbrev pub oldest_of : DisCq → DisCqe
oldest_of cq = get_or cq.buf cq.tail zero_cqe

-- The entries from a tail on.
abbrev pub from : DisCq → ℕ → List DisCqe
from cq tail = contents (record cq { tail = tail })

-- Other indices in the same buffer.
pub at_indices :
    {size head tail slots : ℕ} (h t : ℕ)
    → IsRing size head tail slots
    → h < size
    → t < size
    → IsRing size h t slots
at_indices h t r hh ht = record {
  log = r.log;
  is_pow = r.is_pow;
  small = r.small;
  filled = r.filled;
  head_in = hh;
  tail_in = ht;
}

-- What a write to the slot at the head leaves alone.
pub IsSeen-write :
    (cq : DisCq) (e : DisCqe) (p : Poller)
    → IsSeen cq p
    → IsSeen (record cq { buf = set cq.buf cq.head e }) p
IsSeen-write cq e outside k = k
IsSeen-write cq e (loaded head tail) k = k
IsSeen-write cq e (read tail wc) (same, some_used, oldest) = (
  same,
  some_used,
  oldest ∙ ap wc_of (sym (get_or-set_ne cq.buf cq.head cq.tail e zero_cqe (apart cq some_used))),
)

-- What storing the head and the tail changes for the other side.
pub IsSeen-push :
    (cq : DisCq) (head : ℕ) (p : Poller)
    → used cq ≤ used (record cq { head = head })
    → IsSeen cq p
    → IsSeen (record cq { head = head }) p
IsSeen-push cq head outside grows k = k
IsSeen-push cq head (loaded h t) grows (same, inside, there) = (same, inside, omega arith)
IsSeen-push cq head (read t wc) grows (same, some_used, oldest) = (same, omega arith, oldest)

pub IsHeld-pop :
    (cq : DisCq) (tail : ℕ) (p : Poster)
    → used (record cq { tail = tail }) ≤ used cq
    → IsHeld cq p
    → IsHeld (record cq { tail = tail }) p
IsHeld-pop cq tail unlocked shrinks k = k
IsHeld-pop cq tail (locked wqe status h t) shrinks (same, inside, few) = (same, inside, omega arith)
IsHeld-pop cq tail (written wqe status h) shrinks (same, room, slot) = (same, omega arith, slot)
