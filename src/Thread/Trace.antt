-- ===== src/Thread/Trace.antt =====
-- What a path of steps posts, takes off the queue and polls.
use dis_kverbs.Common.{ℕ, ◌+◌, ◌<◌, List, [], ◌∷◌, ◌++◌, Option, get_or, if◌then◌else◌}
use dis_kverbs.Kernel.{CircBuf}
use dis_kverbs.Verbs.{Iovec, DisWqe, zero_wqe}
use dis_kverbs.Cq.{IbWc, dis_poll_cq}
use dis_kverbs.Cq.Inv.{used}
use dis_kverbs.Post.{Mem}
use dis_kverbs.SciIf.{SciParams}
use dis_kverbs.Thread.{
  System, Turn, finish, Step, turn, post, notify, tell, signal, poll, skip, Reach, here, next,
  is_done,
}

module _ (c : CircBuf) (p : SciParams) where
  -- The entry that the thread finishes, whose completion it posts.
  abbrev pub took : (s t : System) → Turn c p s t → List DisWqe
  took s t (finish replies one at run ok) = get_or s.wq.buf s.wq.tail zero_wqe ∷ []
  took s t _ = []

module _ (c : CircBuf) (p : SciParams) (kmalloc : ℕ → Option (ℕ × List Iovec)) (mem : Mem) where
  -- The entry that a posting publishes: the one in the slot that was at the head.
  abbrev pub posts : (s t : System) → Step c p kmalloc mem s t → List DisWqe
  posts s t (turn st) = []
  posts s t (post opcode wr ret wq free run) =
      if is_done ret then get_or wq.buf s.wq.head zero_wqe ∷ [] else []
  posts s t (notify now) = []
  posts s t tell = []
  posts s t signal = []
  posts s t (poll n) = []
  posts s t (skip at told) = []

  abbrev pub takes : (s t : System) → Step c p kmalloc mem s t → List DisWqe
  takes s t (turn st) = took c p s t st
  takes s t _ = []

  abbrev pub polls : (s t : System) → Step c p kmalloc mem s t → List IbWc
  polls s t (poll n) = (dis_poll_cq c s.cq n).0
  polls s t _ = []

  -- Whether the completion queue has room when the thread finishes an entry.
  abbrev pub IsRoomyStep : (s t : System) → Step c p kmalloc mem s t → Type 0
  IsRoomyStep s t (turn (finish replies one at run ok)) = used s.cq + 1 < s.cq.cqe_max
  IsRoomyStep s t _ = Unit

  abbrev pub IsRoomy : {s t : System} → Reach c p kmalloc mem s t → Type 0
  IsRoomy here = Unit
  IsRoomy (next {t} {u} r st) = IsRoomy r × IsRoomyStep t u st

  -- What the steps of a path yield, in their order.
  abbrev pub along {ℓ} :
      {A : Type ℓ} {s t : System}
      → ((s t : System) → Step c p kmalloc mem s t → List A)
      → Reach c p kmalloc mem s t
      → List A
  along f here = []
  along f (next {t} {u} r st) = along f r ++ f t u st
