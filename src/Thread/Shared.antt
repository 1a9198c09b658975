-- ===== src/Thread/Shared.antt =====
-- A completion queue that other work queues share: what their workers post to it falls in between.
use dis_kverbs.Common.{ℕ, ◌≡◌, ap, sym, ◌∙◌, List, ◌++◌, Option, map}
use dis_kverbs.Kernel.{CircBuf}
use dis_kverbs.Verbs.{Iovec, DisWqe, DisWqType}
use dis_kverbs.Cq.{IbWc}
use dis_kverbs.Cq.Inv.{IsValid, contents}
use dis_kverbs.Post.{Mem}
use dis_kverbs.SciIf.{SciParams, SciReply}
use dis_kverbs.Worker.{consume_one}
use dis_kverbs.Worker.Complete.{Label, wqe_label, cqe_label, wc_label}
use dis_kverbs.Thread.Unfinished.{unfinished}
use dis_kverbs.Thread.{System, Reach}
use dis_kverbs.Thread.Inv.{Inv}
use dis_kverbs.Thread.Reached.{Reach-Inv}
use dis_kverbs.Thread.Wakeup.{IsStart, start-Inv}
use dis_kverbs.Thread.Trace.{posts, polls, IsRoomy, along}
use dis_kverbs.Thread.Kept.{path-IsKept}
use dis_kverbs.Thread.Once.{exactly}
use dis_kverbs.Thread.Foreign.{splice, select, spread, select-append, foreign_kept}

module _ (c : CircBuf) (p : SciParams) (kmalloc : ℕ → Option (ℕ × List Iovec)) (mem : Mem) where
  -- The worker of another work queue finishes the entry `w`.
  abbrev pub finished_elsewhere : System → DisWqType → DisWqe → List SciReply → System
  finished_elsewhere s type w replies = record s { cq = (consume_one c type s.cq w replies).cq }

  -- Steps of this queue's thread and of those around it, broken by other workers.
  pub data Shares (s : System) : System → Type 0 where
    alone : {t : System} → Reach c p kmalloc mem s t → Shares s t
    broken :
        {t u : System} (type : DisWqType) (w : DisWqe) (replies : List SciReply)
        → Shares s t
        → Reach c p kmalloc mem (finished_elsewhere t type w replies) u
        → Shares s u

  abbrev pub posted_here : {s t : System} → Shares s t → List DisWqe
  posted_here (alone r) = along c p kmalloc mem (posts c p kmalloc mem) r
  posted_here (broken type w replies q r) =
      posted_here q ++ along c p kmalloc mem (posts c p kmalloc mem) r

  abbrev pub polled_there : {s t : System} → Shares s t → List IbWc
  polled_there (alone r) = along c p kmalloc mem (polls c p kmalloc mem) r
  polled_there (broken type w replies q r) =
      polled_there q ++ along c p kmalloc mem (polls c p kmalloc mem) r

  -- There is room for this queue's completions, and those of the others are not `mine`.
  abbrev pub IsApart : (Label → Type 0) → {s t : System} → Shares s t → Type 0
  IsApart mine (alone r) = IsRoomy c p kmalloc mem r
  IsApart mine (broken type w replies q r) =
      IsApart mine q × ¬ mine (wqe_label w) × IsRoomy c p kmalloc mem r

module _ {mine : Label → Type 0} (d : (l : Label) → Dec (mine l)) (c : CircBuf) (p : SciParams)
    (kmalloc : ℕ → Option (ℕ × List Iovec)) (mem : Mem) where
  -- What is mine of the completions that were there, the entries that waited and those that were
  -- posted, and where it is.
  abbrev pub IsAccounted : {s t : System} → Shares c p kmalloc mem s t → Type 0
  IsAccounted {s} {t} q =
      select d (map cqe_label (contents s.cq))
        ++ (select d (map wqe_label (unfinished s))
            ++ select d (map wqe_label (posted_here c p kmalloc mem q)))
      ≡ select d (map wc_label (polled_there c p kmalloc mem q))
        ++ (select d (map cqe_label (contents t.cq)) ++ select d (map wqe_label (unfinished t)))

  segment :
      {s t : System}
      → Inv s
      → IsValid s.cq
      → (r : Reach c p kmalloc mem s t) → IsRoomy c p kmalloc mem r
      → IsAccounted (alone r)
  segment {s} {t} v valid r room =
      spread d (map cqe_label (contents s.cq)) (map wqe_label (unfinished s))
        (map wqe_label (along c p kmalloc mem (posts c p kmalloc mem) r))
        (map wc_label (along c p kmalloc mem (polls c p kmalloc mem) r))
        (map cqe_label (contents t.cq)) (map wqe_label (unfinished t))
        (exactly c p kmalloc mem v valid r room)

  shared_lem :
      {s t : System} (q : Shares c p kmalloc mem s t)
      → Inv s
      → IsValid s.cq
      → IsApart c p kmalloc mem mine q
      → Inv t × IsValid t.cq × IsAccounted q
  shared_lem (alone r) v valid room = (
    Reach-Inv c p kmalloc mem v r,
    (path-IsKept c p kmalloc mem r valid room).0,
    segment v valid r room,
  )
  shared_lem {s} (broken {t} {u} type w replies q r) v valid (apart, not, room) =
      let (v1, valid1, first) = shared_lem q v valid apart in
      let (valid2, kept) = foreign_kept d c type t.cq w replies valid1 not in
      let v2 : Inv (finished_elsewhere c p kmalloc mem t type w replies) = record {
        ordered = v1.ordered;
        state = v1.state;
        held = v1.held;
        busy = v1.busy;
        awake = v1.awake;
      } in
      let second = segment v2 valid2 r room in
      let there = map cqe_label (contents s.cq) in
      let waited = map wqe_label (unfinished s) in
      let posted = along c p kmalloc mem (posts c p kmalloc mem) r in
      let polled = along c p kmalloc mem (polls c p kmalloc mem) r in
      (
        Reach-Inv c p kmalloc mem v2 r,
        (path-IsKept c p kmalloc mem r valid2 room).0,
        ap
              (λ l.
                select d (map cqe_label (contents s.cq))
                ++ (select d (map wqe_label (unfinished s)) ++ l))
              (select-append d wqe_label (posted_here c p kmalloc mem q) posted)
            ∙ splice (select d there) (select d waited)
                (select d (map wqe_label (posted_here c p kmalloc mem q)))
                (select d (map wqe_label posted))
                (select d (map wc_label (polled_there c p kmalloc mem q)))
                (select d (map cqe_label (contents t.cq))) (select d (map wqe_label (unfinished t)))
                (select d (map wc_label polled))
                (select d (map cqe_label (contents u.cq))
                  ++ select d (map wqe_label (unfinished u)))
                first
                (ap
                    (λ l.
                      l
                      ++ (select d (map wqe_label (unfinished t))
                          ++ select d (map wqe_label posted)))
                    (sym kept)
                  ∙ second)
            ∙ ap
                (λ l.
                  l
                  ++ (select d (map cqe_label (contents u.cq))
                      ++ select d (map wqe_label (unfinished u))))
                (sym (select-append d wc_label (polled_there c p kmalloc mem q) polled)),
      )

  -- Let a queue be as dis_qp_init leaves it, its completion queue valid, with room whenever its thread
  -- finishes an entry, and let the workers of other queues report to the same completion queue,
  -- between any two steps, entries whose labels are not `mine`: of other queue pairs, or of another
  -- kind. Then what is `mine` of the completions that were there, the entries that waited and those
  -- that were posted is, in this order, what is `mine` of the completions polled, of those that are
  -- there and of the entries left to do (those that wait, but for one whose completion is posted while
  -- the tail is not stored yet): none is lost, repeated or out of order.
  pub exactly_once_shared :
      {s t : System} (q : Shares c p kmalloc mem s t)
      → IsStart s
      → IsValid s.cq
      → IsApart c p kmalloc mem mine q
      → IsAccounted q
  exactly_once_shared q v valid apart = (shared_lem q (start-Inv v) valid apart).2
