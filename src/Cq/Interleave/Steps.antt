-- ===== src/Cq/Interleave/Steps.antt =====
-- The accesses that change the queue, or look at it.
use dis_kverbs.Common.{
  ℕ, ◌+◌, ◌%◌, ◌<◌, ◌≡◌, refl, ap, sym, subst, ◌∙◌, arith, false, ltb, [], ◌∷◌, ◌++◌, map,
  map-append, append_assoc, get_or, set, length-set, get_or-set_self, set_same,
}
use dis_kverbs.Common.Ring.{
  ring_contents, ring_contents-set_head, ring_contents_push, ring_contents_pop,
}
use dis_kverbs.Common.Mask.{used_after_push, used_after_pop}
use dis_kverbs.Kernel.{CircBuf}
use dis_kverbs.Verbs.{WcStatus, DisWqe, zero_cqe, circ_next}
use dis_kverbs.Circ.{full_test, empty_test, circ_next-head, circ_next-tail}
use dis_kverbs.Cq.{IbWc, cqe_of, wc_of}
use dis_kverbs.Cq.Inv.{used, contents}
use dis_kverbs.Cq.Interleave.{outside, loaded, read, unlocked, locked, written, Shared}
use dis_kverbs.Cq.Interleave.Known.{
  IsSeen, IsHeld, IsShared, oldest_of, from, at_indices, IsSeen-write, IsSeen-push, IsHeld-pop,
}

module _ (c : CircBuf) where
  pub read-IsShared :
      {s : Shared} (head tail : ℕ)
      → s.poller ≡ loaded head tail
      → ltb (c.circ_cnt head tail s.cq.cqe_max) 1 ≡ false
      → IsShared s
      → IsShared (record s { poller = read tail (wc_of (get_or s.cq.buf tail zero_cqe)) })
  read-IsShared {s} head tail at some_left v =
      let (same, inside, there) = subst (IsSeen s.cq) at v.seen in
      let r = at_indices head tail v.valid.ring inside (omega (arith, v.valid.ring.tail_in)) in
      record {
        valid = v.valid;
        seen = (
          same,
          ground (arith, empty_test r c),
          ap (λ t. wc_of (get_or s.cq.buf t zero_cqe)) same,
        );
        held = v.held;
        in_order = v.in_order;
      }

  pub stored-IsShared :
      {s : Shared} (tail : ℕ) (wc : IbWc)
      → s.poller ≡ read tail wc
      → IsShared s
      → IsShared (record s {
        cq = record (s.cq) { tail = circ_next tail s.cq.cqe_max };
        poller = outside;
        polled = s.polled ++ wc ∷ [];
      })
  stored-IsShared {s} tail wc at v =
      let (same, some_used, oldest) = subst (IsSeen s.cq) at v.seen in
      let r = v.valid.ring in
      let next = circ_next tail s.cq.cqe_max in
      let moved : next ≡ (s.cq.tail + 1) % s.cq.cqe_max =
        ap (λ t. circ_next t s.cq.cqe_max) same ∙ circ_next-tail r in
      let popped =
        ring_contents_pop zero_cqe s.cq.buf s.cq.cqe_max s.cq.head s.cq.tail r.head_in r.tail_in
          some_used in
      record {
        valid = record {
          ring = at_indices s.cq.head next r r.head_in (rw moved (omega (arith, r.tail_in)));
        };
        seen = tt;
        held =
            IsHeld-pop s.cq next s.poster
              (rw moved (
                omega (
                  arith,
                  used_after_pop s.cq.cqe_max s.cq.head s.cq.tail r.head_in r.tail_in some_used,
                )))
              v.held;
        in_order =
            v.in_order
            ∙ ap (λ l. s.polled ++ map wc_of l)
                (popped ∙ ap (λ t. oldest_of s.cq ∷ from s.cq t) (sym moved))
            ∙ ap (λ w. s.polled ++ w ∷ map wc_of (from s.cq next)) (sym oldest)
            ∙ sym (append_assoc s.polled (wc ∷ []) (map wc_of (from s.cq next)));
      }

  pub write-IsShared :
      {s : Shared} (wqe : DisWqe) (status : WcStatus) (head tail : ℕ)
      → s.poster ≡ locked wqe status head tail
      → ltb (c.circ_space head tail s.cq.cqe_max) 1 ≡ false
      → IsShared s
      → IsShared (record s {
        cq = record (s.cq) { buf = set s.cq.buf head (cqe_of wqe status) };
        poster = written wqe status head;
      })
  write-IsShared {s} wqe status head tail at space v =
      let (same, inside, few) = subst (IsHeld s.cq) at v.held in
      let r = v.valid.ring in
      let e = cqe_of wqe status in
      let old = at_indices head tail r (omega (arith, r.head_in)) inside in
      let room : used s.cq + 1 < s.cq.cqe_max = ground (arith, full_test old c) in
      let unchanged =
        ring_contents-set_head zero_cqe s.cq.buf s.cq.cqe_max s.cq.head s.cq.tail r.head_in
          r.tail_in e in
      rw same (record {
        valid = record { ring = rw (length-set s.cq.buf s.cq.head e) r };
        seen = IsSeen-write s.cq e s.poller v.seen;
        held = (
          refl,
          room,
          get_or-set_self s.cq.buf s.cq.head e zero_cqe (omega (arith, r.head_in, r.filled)),
        );
        in_order = v.in_order ∙ ap (λ l. s.polled ++ map wc_of l) (sym unchanged);
      })

  pub publish-IsShared :
      {s : Shared} (wqe : DisWqe) (status : WcStatus) (head : ℕ)
      → s.poster ≡ written wqe status head
      → IsShared s
      → IsShared (record s {
        cq = record (s.cq) { head = circ_next head s.cq.cqe_max };
        poster = unlocked;
        posted = s.posted ++ cqe_of wqe status ∷ [];
      })
  publish-IsShared {s} wqe status head at v =
      let (same, room, slot) = subst (IsHeld s.cq) at v.held in
      let r = v.valid.ring in
      let e = cqe_of wqe status in
      let next = circ_next head s.cq.cqe_max in
      let moved : next ≡ (s.cq.head + 1) % s.cq.cqe_max =
        ap (λ h. circ_next h s.cq.cqe_max) same ∙ circ_next-head r in
      let pushed =
        ring_contents_push zero_cqe s.cq.buf s.cq.cqe_max s.cq.head s.cq.tail r.head_in r.tail_in e
          r.filled room in
      let filled : contents (record (s.cq) { head = next }) ≡ contents s.cq ++ e ∷ [] =
        ap (λ h. ring_contents zero_cqe s.cq.buf s.cq.cqe_max h s.cq.tail) moved
        ∙ ap (λ b. ring_contents zero_cqe b s.cq.cqe_max ((s.cq.head + 1) % s.cq.cqe_max) s.cq.tail)
            (sym (set_same s.cq.buf s.cq.head e zero_cqe slot))
        ∙ pushed in
      record {
        valid = record {
          ring = at_indices next s.cq.tail r (rw moved (omega (arith, r.head_in))) r.tail_in;
        };
        seen =
            IsSeen-push s.cq next s.poller
              (rw moved (
                omega (
                  arith,
                  used_after_push s.cq.cqe_max s.cq.head s.cq.tail r.head_in r.tail_in room,
                )))
              v.seen;
        held = tt;
        in_order =
            map-append wc_of s.posted (e ∷ [])
            ∙ ap (λ l. l ++ wc_of e ∷ []) v.in_order
            ∙ append_assoc s.polled (map wc_of (contents s.cq)) (wc_of e ∷ [])
            ∙ ap (λ l. s.polled ++ l) (sym (map-append wc_of (contents s.cq) (e ∷ [])))
            ∙ ap (λ l. s.polled ++ map wc_of l) (sym filled);
      }
