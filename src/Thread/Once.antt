-- ===== src/Thread/Once.antt =====
-- Every request that is posted is completed once, in order, however the threads interleave.
use dis_kverbs.Common.{ℕ, ◌≡◌, ap, sym, ◌∙◌, List, ◌++◌, Option, append_assoc, map, map-append}
use dis_kverbs.Kernel.{CircBuf}
use dis_kverbs.Verbs.{Iovec}
use dis_kverbs.Cq.Inv.{IsValid, contents}
use dis_kverbs.Post.{Mem}
use dis_kverbs.SciIf.{SciParams}
use dis_kverbs.Worker.Complete.{wqe_label, cqe_label, wc_label}
use dis_kverbs.Thread.{System, Reach}
use dis_kverbs.Thread.Inv.{Inv}
use dis_kverbs.Thread.Wakeup.{IsStart, start-Inv}
use dis_kverbs.Thread.Trace.{posts, takes, polls, IsRoomy, along}
use dis_kverbs.Thread.Unfinished.{unfinished}
use dis_kverbs.Thread.Waiting.{path_unfinished}
use dis_kverbs.Thread.Kept.{path-IsKept}

module _ (c : CircBuf) (p : SciParams) where
  module _ (kmalloc : ℕ → Option (ℕ × List Iovec)) (mem : Mem) where
    -- From any state that the thread can be in.
    pub exactly :
        {s t : System}
        → Inv s
        → IsValid s.cq
        → (r : Reach c p kmalloc mem s t) → IsRoomy c p kmalloc mem r
        → map cqe_label (contents s.cq)
            ++ (map wqe_label (unfinished s)
                ++ map wqe_label (along c p kmalloc mem (posts c p kmalloc mem) r))
          ≡ map wc_label (along c p kmalloc mem (polls c p kmalloc mem) r)
            ++ (map cqe_label (contents t.cq) ++ map wqe_label (unfinished t))
    exactly {s} {t} v valid r room =
        let there = map cqe_label (contents s.cq) in
        let gone_by = along c p kmalloc mem (takes c p kmalloc mem) r in
        let (valid', kept) = path-IsKept c p kmalloc mem r valid room in
        ap (λ l. there ++ l) (sym (map-append wqe_label (unfinished s) _))
        ∙ ap (λ l. there ++ map wqe_label l) (path_unfinished c p kmalloc mem v r)
        ∙ ap (λ l. there ++ l) (map-append wqe_label gone_by (unfinished t))
        ∙ sym (append_assoc there (map wqe_label gone_by) _)
        ∙ ap (λ l. l ++ map wqe_label (unfinished t)) kept
        ∙ append_assoc _ (map cqe_label (contents t.cq)) _

    -- Let a queue be as dis_qp_init leaves it, its completion queue valid, and let the completion queue have
    -- room whenever the thread finishes an entry. Then, however the thread, those that post, the one
    -- that polls and the one that stops the thread interleave: the completions that were there, the
    -- entries that waited and those that were posted are together, in this order, what was polled,
    -- the completions that are there and the entries left to do, which are those that wait but for
    -- one whose completion is posted while the tail is not stored yet. Each keeps its id, its kind
    -- and its queue pair; none is lost or repeated.
    pub exactly_once :
        {s t : System}
        → IsStart s
        → IsValid s.cq
        → (r : Reach c p kmalloc mem s t) → IsRoomy c p kmalloc mem r
        → map cqe_label (contents s.cq)
            ++ (map wqe_label (unfinished s)
                ++ map wqe_label (along c p kmalloc mem (posts c p kmalloc mem) r))
          ≡ map wc_label (along c p kmalloc mem (polls c p kmalloc mem) r)
            ++ (map cqe_label (contents t.cq) ++ map wqe_label (unfinished t))
    exactly_once v valid r room = exactly (start-Inv v) valid r room
