-- ===== src/Thread/Unfinished.antt =====
-- The entries that the thread has still to finish: those of the ring, but for the one that was consumed
-- and whose slot is not free yet.
use dis_kverbs.Common.{ℕ, ◌≤◌, ◌<◌, ◌≡◌, ◌⊎◌, inl, inr, List, arith}
use dis_kverbs.Common.Mask.{used_after_pop}
use dis_kverbs.Common.Ring.{ring_used, ring_contents}
use dis_kverbs.Verbs.{DisWqe, DisWq, zero_wqe, circ_next}
use dis_kverbs.Circ.{circ_next-tail}
use dis_kverbs.Thread.{Pc, advancing, System}
use dis_kverbs.Thread.Inv.{Inv, wq_entries}

-- Where they begin.
abbrev pub begin_at : Pc → DisWq → ℕ
begin_at advancing wq = circ_next wq.tail wq.wqe_max
begin_at _ wq = wq.tail

abbrev pub entries_from : DisWq → ℕ → List DisWqe
entries_from wq t = ring_contents zero_wqe wq.buf wq.wqe_max wq.head t

abbrev pub unfinished : System → List DisWqe
unfinished s = entries_from s.wq (begin_at s.pc s.wq)

pub begin_cases :
    (k : Pc) (wq : DisWq)
    → ((k ≡ advancing) × (begin_at k wq ≡ circ_next wq.tail wq.wqe_max)) ⊎ (begin_at k wq ≡ wq.tail)
begin_cases k wq = ground arith

pub begin_same :
    (k : Pc) (wq wq' : DisWq)
    → wq'.tail ≡ wq.tail
    → wq'.wqe_max ≡ wq.wqe_max
    → begin_at k wq' ≡ begin_at k wq
begin_same k wq wq' tail size = ground arith

-- They begin in the ring, and are no more than its entries.
pub begin_in :
    (s : System)
    → Inv s
    → (begin_at s.pc s.wq < s.wq.wqe_max)
      × (ring_used s.wq.wqe_max s.wq.head (begin_at s.pc s.wq) ≤ wq_entries s.wq)
begin_in s v =
    let r = v.ordered.ring in
    elim (begin_cases s.pc s.wq) [
      | inl (at, next) ↦
          let popped =
            used_after_pop s.wq.wqe_max s.wq.head s.wq.tail r.head_in r.tail_in (v.busy (inr at)) in
          rw (next, circ_next-tail r) (omega (arith, r.tail_in), omega (arith, popped))
      | inr same ↦ rw same (r.tail_in, omega arith)
    ]
