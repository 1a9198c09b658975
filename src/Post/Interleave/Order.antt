-- ===== src/Post/Interleave/Order.antt =====
-- Posting beside the worker loses no entry, repeats none and keeps their order.
use dis_kverbs.Common.{◌≡◌, refl, ap, sym, subst, ◌∙◌, arith, ℕ, Option, List, [], ◌++◌}
use dis_kverbs.Kernel.{CircBuf}
use dis_kverbs.Pd.{DisPd}
use dis_kverbs.Verbs.{Iovec, WcOpcode}
use dis_kverbs.Worker.{consume_one}
use dis_kverbs.Worker.Tail.{IsQueue}
use dis_kverbs.Post.{Mem}
use dis_kverbs.Post.Interleave.{
  WqPoster, idle, inside, WqWorker, away, looked, WqShared, WqAccess, post_load, post_full,
  post_refuse, post_fill, post_publish, work_look, work_empty, work_fetch, work_consume,
  work_release, WqAccesses, none_yet, more,
}
use dis_kverbs.Post.Interleave.Known.{IsPosting, IsWorking, unfinished, from, IsWqShared}
use dis_kverbs.Post.Interleave.Steps.{
  write-IsWqShared, fill-IsWqShared, publish-IsWqShared, fetch-IsWqShared, consume-IsWqShared,
  release-IsWqShared,
}

-- A step that only changes what the thread that posts, or the worker, knows.
poster-IsWqShared :
    {s : WqShared} (p : WqPoster)
    → IsPosting s.wq p
    → IsWqShared s
    → IsWqShared (record s { poster = p })
poster-IsWqShared p k v = record {
  ordered = v.ordered;
  posting = k;
  working = v.working;
  in_order = v.in_order;
}

worker-IsWqShared :
    {s : WqShared} (w w' : WqWorker)
    → s.worker ≡ w
    → IsWorking s.wq w'
    → unfinished s.wq w ≡ unfinished s.wq w'
    → IsWqShared s
    → IsWqShared (record s { worker = w' })
worker-IsWqShared {s} w w' at k same v = record {
  ordered = v.ordered;
  posting = v.posting;
  working = k;
  in_order = v.in_order ∙ ap (λ l. s.taken ++ l) (ap (unfinished s.wq) at ∙ same);
}

module _ (c : CircBuf) (kmalloc : ℕ → Option (ℕ × List Iovec)) (mem : Mem) (opcode : WcOpcode)
    (pd : DisPd) where
  WqAccess-IsWqShared :
      {s t : WqShared} → WqAccess c kmalloc mem opcode pd s t → IsWqShared s → IsWqShared t
  WqAccess-IsWqShared {s} (post_load wr at) v =
      poster-IsWqShared (inside wr s.wq.head s.wq.tail) (refl, v.ordered.ring.tail_in, omega arith)
        v
  WqAccess-IsWqShared (post_full wr head tail at full) v = poster-IsWqShared idle tt v
  WqAccess-IsWqShared (post_refuse wr head tail n wqe at space built) v =
      write-IsWqShared wr head tail wqe idle at v tt
  WqAccess-IsWqShared (post_fill wr head tail wqe at space built) v =
      fill-IsWqShared c wr head tail wqe at space v
  WqAccess-IsWqShared (post_publish wqe head at) v = publish-IsWqShared wqe head at v
  WqAccess-IsWqShared {s} (work_look at) v =
      worker-IsWqShared away (looked s.wq.head) at (v.ordered.ring.head_in, omega arith) refl v
  WqAccess-IsWqShared (work_empty head at none_left) v =
      worker-IsWqShared (looked head) away at tt refl v
  WqAccess-IsWqShared (work_fetch head at some_left) v = fetch-IsWqShared c head at some_left v
  WqAccess-IsWqShared {s} (work_consume wqe cq replies at) v =
      consume-IsWqShared wqe (consume_one c s.wq.wq_type cq wqe replies).wqe at v
  WqAccess-IsWqShared (work_release wqe at) v = release-IsWqShared wqe at v

  start-IsWqShared :
      {s : WqShared}
      → IsQueue s.wq
      → s.poster ≡ idle
      → s.worker ≡ away
      → s.posted ≡ from s.wq s.wq.tail
      → s.taken ≡ []
      → IsWqShared s
  start-IsWqShared {s} v no_post no_work all none_taken = record {
    ordered = v;
    posting = subst (IsPosting s.wq) (sym no_post) tt;
    working = subst (IsWorking s.wq) (sym no_work) tt;
    in_order =
        all
        ∙ ap (unfinished s.wq) (sym no_work)
        ∙ ap (λ l. l ++ unfinished s.wq s.worker) (sym none_taken);
  }

  -- From a queue in order, with no thread posting and the worker between two entries, whose waiting
  -- entries are those that were posted: however the accesses of one thread's postings, refused ones
  -- included, and of the worker interleave, with indices that are old when they are used, the entries
  -- that the worker let go, the one that it has consumed, and those that wait are together the ones
  -- that were published, each once, as it was posted and in that order; and the queue is in order.
  pub posts_in_order :
      {s t : WqShared}
      → IsQueue s.wq
      → s.poster ≡ idle
      → s.worker ≡ away
      → s.posted ≡ from s.wq s.wq.tail
      → s.taken ≡ []
      → WqAccesses c kmalloc mem opcode pd s t
      → IsQueue t.wq × (t.posted ≡ t.taken ++ unfinished t.wq t.worker)
  posts_in_order {s} {t} v no_post no_work all none_taken path =
      let w = kept path in (w.ordered, w.in_order)
    where
      kept : {u : WqShared} → WqAccesses c kmalloc mem opcode pd s u → IsWqShared u
      kept none_yet = start-IsWqShared v no_post no_work all none_taken
      kept (more before step) = WqAccess-IsWqShared step (kept before)
