-- ===== src/Cq/Interleave/Twice.antt =====
-- Two threads in dis_poll_cq on one queue, which nothing keeps apart.
use dis_kverbs.Common.{
  ◌<◌, ◌≡◌, refl, ap, sym, ◌∙◌, arith, ◌++◌, [], ◌∷◌, ltb, false, get_or, append_assoc,
}
use dis_kverbs.Common.Ring.{ring_contents, ring_contents_pop}
use dis_kverbs.Kernel.{CircBuf}
use dis_kverbs.Circ.{circ_cnt-eq-used, circ_next-tail}
use dis_kverbs.Verbs.{zero_cqe}
use dis_kverbs.Cq.{wc_of}
use dis_kverbs.Cq.Inv.{IsValid, used, contents}
use dis_kverbs.Cq.Interleave.{Poller, outside, Shared, Access, poll_load, poll_read, poll_store}

-- The queue with the thread that is inside it now, and where the other one stands.
pub record Pair : Type 0 where
  pub shared : Shared
  pub other : Poller

module _ (c : CircBuf) where
  -- An access of the thread that runs, or the other one gets its turn.
  pub data PairStep (s : Pair) : Pair → Type 0 where
    access : {t : Shared} → Access c s.shared t → PairStep s (record s { shared = t })
    switch :
        PairStep s
          (record { shared = record (s.shared) { poller = s.other }; other = s.shared.poller })

  pub data PairSteps (s : Pair) : Pair → Type 0 where
    start : PairSteps s s
    then : {t u : Pair} → PairSteps s t → PairStep t u → PairSteps s u

  -- Whenever an entry waits in a valid queue that no thread polls, two threads can poll so that both
  -- report the completion of the oldest entry, though only that entry leaves the queue.
  pub polled_twice :
      (s : Shared)
      → IsValid s.cq
      → 0 < used s.cq
      → let oldest = get_or s.cq.buf s.cq.tail zero_cqe in
        (t : Shared) × PairSteps
          (record { shared = record s { poller = outside }; other = outside })
          (record { shared = t; other = outside })
        × (t.polled ≡ s.polled ++ wc_of oldest ∷ wc_of oldest ∷ [])
        × (contents s.cq ≡ oldest ∷ contents t.cq)
  polled_twice s v waits =
      let some_left : ltb (c.circ_cnt s.cq.head s.cq.tail s.cq.cqe_max) 1 ≡ false =
        rw (circ_cnt-eq-used v.ring c) (ground arith) in
      let wc = wc_of (get_or s.cq.buf s.cq.tail zero_cqe) in
      (
        _,
        then
            (then
              (then
                (then
                  (then
                    (then (then (then start (access (poll_load refl))) switch)
                      (access (poll_load refl)))
                    (access (poll_read s.cq.head s.cq.tail refl some_left)))
                  (access (poll_store s.cq.tail wc refl)))
                switch)
              (access (poll_read s.cq.head s.cq.tail refl some_left)))
            (access (poll_store s.cq.tail wc refl)),
        append_assoc s.polled (wc ∷ []) (wc ∷ []),
        ring_contents_pop zero_cqe s.cq.buf s.cq.cqe_max s.cq.head s.cq.tail v.ring.head_in
              v.ring.tail_in waits
            ∙ ap
                (λ i.
                  get_or s.cq.buf s.cq.tail zero_cqe
                  ∷ ring_contents zero_cqe s.cq.buf s.cq.cqe_max s.cq.head i)
                (sym (circ_next-tail v.ring)),
      )
