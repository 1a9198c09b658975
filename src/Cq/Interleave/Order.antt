-- ===== src/Cq/Interleave/Order.antt =====
-- Polling and posting at the same time lose no completion, repeat none and keep their order.
use dis_kverbs.Common.{◌≡◌, refl, ap, sym, subst, ◌∙◌, arith, [], ◌++◌, map}
use dis_kverbs.Kernel.{CircBuf}
use dis_kverbs.Cq.{wc_of}
use dis_kverbs.Cq.Inv.{IsValid, contents}
use dis_kverbs.Cq.Interleave.{
  Poller, outside, loaded, Poster, unlocked, locked, Shared, Access, poll_load, poll_empty,
  poll_read, poll_store, post_load, post_full, post_write, post_store, Accesses, none_yet, more,
}
use dis_kverbs.Cq.Interleave.Known.{IsSeen, IsHeld, IsShared}
use dis_kverbs.Cq.Interleave.Steps.{
  read-IsShared, stored-IsShared, write-IsShared, publish-IsShared,
}

module _ (c : CircBuf) where
  -- A step that only changes what the poller, or the holder of the lock, knows.
  poller-IsShared :
      {s : Shared} (p : Poller) → IsSeen s.cq p → IsShared s → IsShared (record s { poller = p })
  poller-IsShared p k v = record { valid = v.valid; seen = k; held = v.held; in_order = v.in_order }

  poster-IsShared :
      {s : Shared} (p : Poster) → IsHeld s.cq p → IsShared s → IsShared (record s { poster = p })
  poster-IsShared p k v = record { valid = v.valid; seen = v.seen; held = k; in_order = v.in_order }

  Access-IsShared : {s t : Shared} → Access c s t → IsShared s → IsShared t
  Access-IsShared {s} (poll_load at) v =
      poller-IsShared (loaded s.cq.head s.cq.tail) (refl, v.valid.ring.head_in, omega arith) v
  Access-IsShared (poll_empty head tail at none_left) v = poller-IsShared outside tt v
  Access-IsShared (poll_read head tail at some_left) v = read-IsShared c head tail at some_left v
  Access-IsShared (poll_store tail wc at) v = stored-IsShared c tail wc at v
  Access-IsShared {s} (post_load wqe status at) v =
      poster-IsShared (locked wqe status s.cq.head s.cq.tail)
        (refl, v.valid.ring.tail_in, omega arith) v
  Access-IsShared (post_full wqe status head tail at full) v = poster-IsShared unlocked tt v
  Access-IsShared (post_write wqe status head tail at space) v =
      write-IsShared c wqe status head tail at space v
  Access-IsShared (post_store wqe status head at) v = publish-IsShared c wqe status head at v

  start-IsShared :
      {s : Shared}
      → IsValid s.cq
      → s.poller ≡ outside
      → s.poster ≡ unlocked
      → s.posted ≡ contents s.cq
      → s.polled ≡ []
      → IsShared s
  start-IsShared {s} v out open_lock all none_polled = record {
    valid = v;
    seen = subst (IsSeen s.cq) (sym out) tt;
    held = subst (IsHeld s.cq) (sym open_lock) tt;
    in_order = ap (map wc_of) all ∙ ap (λ l. l ++ map wc_of (contents s.cq)) (sym none_polled);
  }

  -- From a valid queue that nobody is inside of, whose entries are those that were posted: however one
  -- thread's polls and the postings of any number of others interleave, the completions that were
  -- polled and those that wait are together the ones that were posted, each once and in the order in
  -- which they were posted; and the queue is valid.
  pub polls_in_order :
      {s t : Shared}
      → IsValid s.cq
      → s.poller ≡ outside
      → s.poster ≡ unlocked
      → s.posted ≡ contents s.cq
      → s.polled ≡ []
      → Accesses c s t
      → IsValid t.cq × (map wc_of t.posted ≡ t.polled ++ map wc_of (contents t.cq))
  polls_in_order {s} {t} v out open_lock all none_polled path =
      let w = kept path in (w.valid, w.in_order)
    where
      kept : {u : Shared} → Accesses c s u → IsShared u
      kept none_yet = start-IsShared v out open_lock all none_polled
      kept (more before step) = Access-IsShared step (kept before)
