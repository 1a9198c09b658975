-- ===== src/Cq/Refine.antt =====
-- A valid completion queue behaves as the bounded FIFO of the entries that it holds.
use dis_kverbs.Common.{
  ℕ, zero, suc, ◌+◌, ◌-◌, ◌≡◌, arith, [], ◌∷◌, ◌++◌, length-set, map, ltb, true, false, Bool-cases,
  tests, get_or, inl, inr, set, refl, ap,
}
use dis_kverbs.Common.Ring.{ring_contents_empty, ring_contents_push, ring_contents_pop}
use dis_kverbs.Kernel.{CircBuf}
use dis_kverbs.Verbs.{done, fail, WcStatus, DisWqe, DisCq, zero_cqe, circ_next}
use dis_kverbs.Circ.{
  full_test, empty_test, circ_next-head, circ_next-tail, IsRing-next_head, IsRing-next_tail,
}
use dis_kverbs.Cq.{cqe_of, wc_of, dis_wq_post_sqe_cqe, dis_wq_post_rqe_cqe, dis_poll_cq}
use dis_kverbs.Cq.Inv.{IsValid, used, contents, length-contents}
use dis_kverbs.Cq.Queue

module _ (c : CircBuf) where
  -- Both kinds of work queue post the same entry in the same way.
  pub post_rqe-eq-post_sqe :
      (cq : DisCq) (wqe : DisWqe) (s : WcStatus)
      → dis_wq_post_rqe_cqe c cq wqe s ≡ dis_wq_post_sqe_cqe c cq wqe s
  unfolding dis_wq_post_rqe_cqe dis_wq_post_sqe_cqe
  post_rqe-eq-post_sqe cq wqe s = refl

  -- The queue with an entry written at its head, and with the entry at its tail taken off.
  posted : DisCq → DisWqe → WcStatus → DisCq
  posted cq wqe s = record cq {
    buf = set cq.buf cq.head (cqe_of wqe s);
    head = circ_next cq.head cq.cqe_max;
  }

  polled : DisCq → DisCq
  polled cq = record cq { tail = circ_next cq.tail cq.cqe_max }

  post_room :
      (cq : DisCq) (wqe : DisWqe) (s : WcStatus)
      → IsValid cq
      → ltb (used cq + 1) cq.cqe_max ≡ true
      → dis_wq_post_sqe_cqe c cq wqe s ≡ (done, posted cq wqe s)
  unfolding dis_wq_post_sqe_cqe posted
  post_room cq wqe s v room = rw (full_test v.ring c, room)

  post_full :
      (cq : DisCq) (wqe : DisWqe) (s : WcStatus)
      → IsValid cq
      → ltb (used cq + 1) cq.cqe_max ≡ false
      → dis_wq_post_sqe_cqe c cq wqe s ≡ (fail 42, cq)
  unfolding dis_wq_post_sqe_cqe
  post_full cq wqe s v full = rw (full_test v.ring c, full)

  contents-posted :
      {cq : DisCq} (wqe : DisWqe) (s : WcStatus)
      → IsValid cq
      → ltb (used cq + 1) cq.cqe_max ≡ true
      → contents (posted cq wqe s) ≡ contents cq ++ cqe_of wqe s ∷ []
  unfolding posted
  contents-posted {cq} wqe s v room = rw (circ_next-head v.ring) (
      ring_contents_push zero_cqe cq.buf cq.cqe_max cq.head cq.tail v.ring.head_in v.ring.tail_in
        (cqe_of wqe s) v.ring.filled (omega (tests, room)))

  posted-IsValid :
      {cq : DisCq} (wqe : DisWqe) (s : WcStatus) → IsValid cq → IsValid (posted cq wqe s)
  unfolding posted
  posted-IsValid {cq} wqe s v = record {
    ring = rw (length-set cq.buf cq.head (cqe_of wqe s)) (IsRing-next_head v.ring);
  }

  -- Posting to a valid queue is `push` on its contents, with room for `cqe_max - 1` entries: with
  -- room the entry goes behind the others and 0 is returned, and without room nothing changes and
  -- -42 is returned. The queue stays valid and keeps its size.
  pub post_refines :
      {cq : DisCq} (wqe : DisWqe) (s : WcStatus)
      → IsValid cq
      → let (ret, cq') = dis_wq_post_sqe_cqe c cq wqe s in
        ((ret, contents cq') ≡ Queue.push (cq.cqe_max - 1) (contents cq) (cqe_of wqe s))
        × IsValid cq'
        × (cq'.cqe_max ≡ cq.cqe_max)
  unfolding Queue.push posted
  post_refines {cq} wqe s v = elim (Bool-cases (ltb (used cq + 1) cq.cqe_max)) [
    | inl room ↦
        let spare : ltb (used cq) (cq.cqe_max - 1) ≡ true = ground arith in
        rw (post_room cq wqe s v room, length-contents cq, spare)
          (ap (λ q. (done, q)) (contents-posted wqe s v room), posted-IsValid wqe s v, refl)
    | inr full ↦
        let spare : ltb (used cq) (cq.cqe_max - 1) ≡ false = ground arith in
        rw (post_full cq wqe s v full, length-contents cq, spare) (refl, v, refl)
  ]

  poll_more :
      (n : ℕ) (cq : DisCq)
      → IsValid cq
      → ltb 0 (used cq) ≡ true
      → let (wcs, cq') = dis_poll_cq c (polled cq) n in
        dis_poll_cq c cq (suc n) ≡ (wc_of (get_or cq.buf cq.tail zero_cqe) ∷ wcs, cq')
  unfolding dis_poll_cq polled
  poll_more n cq v more = rw (empty_test v.ring c, more)

  poll_none :
      (n : ℕ) (cq : DisCq)
      → IsValid cq
      → ltb 0 (used cq) ≡ false
      → dis_poll_cq c cq (suc n) ≡ ([], cq)
  unfolding dis_poll_cq
  poll_none n cq v empty = rw (empty_test v.ring c, empty)

  contents-polled :
      {cq : DisCq}
      → IsValid cq
      → ltb 0 (used cq) ≡ true
      → contents cq ≡ get_or cq.buf cq.tail zero_cqe ∷ contents (polled cq)
  unfolding polled
  contents-polled {cq} v more = rw (circ_next-tail v.ring) (
      ring_contents_pop zero_cqe cq.buf cq.cqe_max cq.head cq.tail v.ring.head_in v.ring.tail_in
        (omega (tests, more)))

  polled-IsValid : {cq : DisCq} → IsValid cq → IsValid (polled cq)
  unfolding polled
  polled-IsValid v = record { ring = IsRing-next_tail v.ring }

  -- Polling a valid queue for `n` completions is `pop n` on its contents: the oldest entries, at
  -- most `n` and as many as there are, become work completions in order and leave the queue. The
  -- queue stays valid and keeps its size.
  pub poll_refines :
      (n : ℕ) {cq : DisCq}
      → IsValid cq
      → let (wcs, cq') = dis_poll_cq c cq n in
        let (taken, left) = Queue.pop n (contents cq) in
        (wcs ≡ map wc_of taken) × (contents cq' ≡ left) × IsValid cq' × (cq'.cqe_max ≡ cq.cqe_max)
  unfolding Queue.pop dis_poll_cq polled
  poll_refines zero {cq} v = (refl, refl, v, refl)
  poll_refines (suc n) {cq} v = elim (Bool-cases (ltb 0 (used cq))) [
    | inl more ↦
        let ih = poll_refines n (polled-IsValid v) in
        rw (poll_more n cq v more, contents-polled v more)
          (ap (λ t. wc_of (get_or cq.buf cq.tail zero_cqe) ∷ t) ih.0, ih.1, ih.2, ih.3)
    | inr empty ↦
        let none_wait : contents cq ≡ [] =
          ring_contents_empty zero_cqe cq.buf cq.cqe_max cq.head cq.tail (omega (tests, empty)) in
        rw (poll_none n cq v empty, none_wait) (refl, refl, v, refl)
  ]
