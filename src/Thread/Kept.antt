-- ===== src/Thread/Kept.antt =====
-- What a path of steps does to the completions.
use dis_kverbs.Common.{
  ℕ, ◌+◌, ◌<◌, ◌≡◌, ap, ap₂, sym, subst, ◌∙◌, List, [], ◌∷◌, ◌++◌, Option, append_assoc, append-nil,
  map, map-append, get_or, take, drop, take-append-drop, map-map,
}
use dis_kverbs.Kernel.{CircBuf}
use dis_kverbs.Verbs.{Iovec, DisWqe, DisCqe, DisCq, zero_wqe}
use dis_kverbs.Cq.{IbWc, wc_of, dis_poll_cq}
use dis_kverbs.Cq.Inv.{IsValid, used, contents}
use dis_kverbs.Cq.Refine.{poll_refines}
use dis_kverbs.Cq.Queue
use dis_kverbs.Post.{Mem}
use dis_kverbs.SciIf.{SciParams, SciReply}
use dis_kverbs.Worker.{Consumed, consume_one}
use dis_kverbs.Worker.Complete.{wqe_label, cqe_label, wc_label}
use dis_kverbs.Worker.Order.{one-added}
use dis_kverbs.Thread.{
  System, Turn, start, join, give_up, clear, fetch, finish, advance, drained, wake, kill, stop,
  leave, Step, turn, post, notify, tell, signal, poll, skip, Reach, here, next,
}
use dis_kverbs.Thread.Trace.{takes, polls, IsRoomyStep, IsRoomy, along, took}

module _ (c : CircBuf) (p : SciParams) where
  -- The labels of the completions that were there and of those that a step adds are those of the
  -- completions that it polls and of those that are there after it.
  abbrev pub IsKept : DisCq → List DisWqe → List IbWc → DisCq → Type 0
  IsKept cq new out cq' =
      IsValid cq'
      × (map cqe_label (contents cq) ++ map wqe_label new
          ≡ map wc_label out ++ map cqe_label (contents cq'))

  IsKept-same : {cq : DisCq} → IsValid cq → IsKept cq [] [] cq
  IsKept-same {cq} v = (v, append-nil (map cqe_label (contents cq)))

  finished-IsKept :
      (s : System) (replies : List SciReply)
      → IsValid s.cq
      → used s.cq + 1 < s.cq.cqe_max
      → let wqe = get_or s.wq.buf s.wq.tail zero_wqe in
        IsKept s.cq (wqe ∷ []) [] (consume_one c s.wq.wq_type s.cq wqe replies).cq
  finished-IsKept s replies v room =
      let wqe = get_or s.wq.buf s.wq.tail zero_wqe in
      let (e, more, label, v', size) = one-added c s.wq.wq_type wqe replies v room in
      (
        v',
        ap (λ l. map cqe_label (contents s.cq) ++ l ∷ []) (sym label)
            ∙ sym (map-append cqe_label (contents s.cq) (e ∷ []))
            ∙ ap (map cqe_label) (sym more),
      )

  labels_polled : (es : List DisCqe) → map wc_label (map wc_of es) ≡ map cqe_label es
  unfolding wc_of
  labels_polled es = map-map wc_label wc_of es

  polled-IsKept :
      (n : ℕ) (cq : DisCq) → IsValid cq → IsKept cq [] (dis_poll_cq c cq n).0 (dis_poll_cq c cq n).1
  unfolding Queue.pop
  polled-IsKept n cq v =
      let (wcs, left, v', size) = poll_refines c n v in
      let first = take n (contents cq) in
      (
        v',
        append-nil (map cqe_label (contents cq))
            ∙ ap (map cqe_label) (sym (take-append-drop n (contents cq)))
            ∙ map-append cqe_label first (drop n (contents cq))
            ∙ ap₂ ◌++◌ (sym (ap (map wc_label) wcs ∙ labels_polled first))
                (ap (map cqe_label) (sym left)),
      )

  module _ (kmalloc : ℕ → Option (ℕ × List Iovec)) (mem : Mem) where
    turn-IsKept :
        {s t : System} (st : Turn c p s t)
        → IsValid s.cq
        → IsRoomyStep c p kmalloc mem s t (turn st)
        → IsKept s.cq (took c p s t st) [] t.cq
    turn-IsKept (start at) v room = IsKept-same v
    turn-IsKept (join err at free ok) v room = IsKept-same v
    turn-IsKept (give_up at told) v room = IsKept-same v
    turn-IsKept (clear at free) v room = IsKept-same v
    turn-IsKept (fetch at free left) v room = IsKept-same v
    turn-IsKept {s} (finish replies one at run ok) v room =
        subst (λ (o : Consumed). IsKept s.cq (get_or s.wq.buf s.wq.tail zero_wqe ∷ []) [] o.cq)
          (sym run) (finished-IsKept s replies v room)
    turn-IsKept (advance at) v room = IsKept-same v
    turn-IsKept (drained at free left) v room = IsKept-same v
    turn-IsKept (wake at ready) v room = IsKept-same v
    turn-IsKept (kill at pending) v room = IsKept-same v
    turn-IsKept (stop at told) v room = IsKept-same v
    turn-IsKept (leave at) v room = IsKept-same v

    Step-IsKept :
        {s t : System} (st : Step c p kmalloc mem s t)
        → IsValid s.cq
        → IsRoomyStep c p kmalloc mem s t st
        → IsKept s.cq (takes c p kmalloc mem s t st) (polls c p kmalloc mem s t st) t.cq
    Step-IsKept (turn st) v room = turn-IsKept st v room
    Step-IsKept (post opcode wr ret wq free run) v room = IsKept-same v
    Step-IsKept (notify now) v room = IsKept-same v
    Step-IsKept tell v room = IsKept-same v
    Step-IsKept signal v room = IsKept-same v
    Step-IsKept {s} (poll n) v room = polled-IsKept n s.cq v
    Step-IsKept (skip at told) v room = IsKept-same v

    IsKept-trans :
        (a b d : DisCq) (new new' : List DisWqe) (out out' : List IbWc)
        → IsKept a new out b
        → IsKept b new' out' d
        → IsKept a (new ++ new') (out ++ out') d
    IsKept-trans a b d new new' out out' (v, first) (v', second) = (
      v',
      ap (λ l. map cqe_label (contents a) ++ l) (map-append wqe_label new new')
          ∙ sym (append_assoc (map cqe_label (contents a)) (map wqe_label new) _)
          ∙ ap (λ l. l ++ map wqe_label new') first
          ∙ append_assoc (map wc_label out) _ _
          ∙ ap (λ l. map wc_label out ++ l) second
          ∙ sym (append_assoc (map wc_label out) (map wc_label out') _)
          ∙ ap (λ l. l ++ map cqe_label (contents d)) (sym (map-append wc_label out out')),
    )

    pub path-IsKept :
        {s t : System} (r : Reach c p kmalloc mem s t)
        → IsValid s.cq
        → IsRoomy c p kmalloc mem r
        → IsKept s.cq
            (along c p kmalloc mem (takes c p kmalloc mem) r)
            (along c p kmalloc mem (polls c p kmalloc mem) r)
            t.cq
    path-IsKept here v room = IsKept-same v
    path-IsKept {s} (next {t} {u} r st) v (room, last) =
        let before = path-IsKept r v room in
        IsKept-trans s.cq t.cq u.cq _ _ _ _ before (Step-IsKept st before.0 last)
