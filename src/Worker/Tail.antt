-- ===== src/Worker/Tail.antt =====
-- Taking the entry at the tail off a work queue.
use dis_kverbs.Common.{◌+◌, ◌<◌, ◌≡◌, List, ◌∷◌, ap, ◌∙◌, sym, get_or, length, length-set}
use dis_kverbs.Common.Mask.{used_after_pop}
use dis_kverbs.Common.Ring.{ring_used, ring_contents, ring_contents_pop, ring_contents-set_tail}
use dis_kverbs.Verbs.{DisWqe, DisWq, zero_wqe}
use dis_kverbs.Circ.{IsRing, circ_next-tail, IsRing-next_tail}
use dis_kverbs.Worker.{step_tail}

-- The entries that wait, oldest first.
abbrev pub wq_waiting : DisWq → List DisWqe
wq_waiting wq = ring_contents zero_wqe wq.buf wq.wqe_max wq.head wq.tail

-- The indices and the slots of the work queue are in order.
pub record IsQueue (wq : DisWq) : Type 0 where
  pub ring : IsRing wq.wqe_max wq.head wq.tail (length wq.buf)

-- Another queue with the same indices and as many slots.
pub same_ring :
    (wq wq' : DisWq)
    → wq'.head ≡ wq.head
    → wq'.tail ≡ wq.tail
    → wq'.wqe_max ≡ wq.wqe_max
    → length wq'.buf ≡ length wq.buf
    → IsQueue wq
    → IsQueue wq'
same_ring wq wq' h t m b v = record { ring = rw (h, t, m, b) v.ring }

pub step_tail-IsQueue : (wq : DisWq) (wqe : DisWqe) → IsQueue wq → IsQueue (step_tail wq wqe)
step_tail-IsQueue wq wqe v = record {
  ring = rw (length-set wq.buf wq.tail wqe) (IsRing-next_tail v.ring);
}

pub waiting-step_tail :
    (wq : DisWq) (wqe : DisWqe)
    → IsQueue wq
    → 0 < ring_used wq.wqe_max wq.head wq.tail
    → wq_waiting wq ≡ get_or wq.buf wq.tail zero_wqe ∷ wq_waiting (step_tail wq wqe)
waiting-step_tail wq wqe v more =
    ring_contents_pop zero_wqe wq.buf wq.wqe_max wq.head wq.tail v.ring.head_in v.ring.tail_in more
    ∙ ap (λ t. get_or wq.buf wq.tail zero_wqe ∷ t)
        (rw (circ_next-tail v.ring) (
          sym (
            ring_contents-set_tail zero_wqe wq.buf wq.wqe_max wq.head wq.tail v.ring.head_in
              v.ring.tail_in wqe more)))

pub used-step_tail :
    (wq : DisWq) (wqe : DisWqe)
    → IsQueue wq
    → 0 < ring_used wq.wqe_max wq.head wq.tail
    → ring_used wq.wqe_max wq.head (step_tail wq wqe).tail + 1
      ≡ ring_used wq.wqe_max wq.head wq.tail
used-step_tail wq wqe v more =
    rw (circ_next-tail v.ring)
      (used_after_pop wq.wqe_max wq.head wq.tail v.ring.head_in v.ring.tail_in more)
