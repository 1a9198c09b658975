-- ===== src/Post/Shape.antt =====
-- What posting touches of a work queue, whatever the request.
use dis_kverbs.Common.{
  ℕ, ◌≡◌, ◌⊎◌, inl, inr, refl, arith, ap, sym, subst, ◌∙◌, false, Bool-cases, Option, none, some,
  Option-cases, length, length-set, ltb, List, get_or, set, set_same,
}
use mathlib.Core.Option.{some-injective}
use dis_kverbs.Kernel.{CircBuf}
use dis_kverbs.Verbs.{Ret, done, fail, WcOpcode, Iovec, DisWqe, DisWq, zero_wqe, circ_next}
use dis_kverbs.Circ.{IsRing-next_head}
use dis_kverbs.Worker.Tail.{IsQueue, same_ring}
use dis_kverbs.Post.{IbWr, Mem, build_wqe, commit, post_one}
use dis_kverbs.Post.Array.{build_wqe-array}
use dis_kverbs.Post.Build.{IsWq}
use dis_kverbs.Post.Correct.{arrays-set}
use dis_kverbs.Post.Refused.{build_wqe_fail, post_one_orphan, post_one_open, post_one_full}

-- Only the slot at the head and the head may change; the head moves just where 0 is returned, and then
-- there was room.
pub record IsPosted (c : CircBuf) (wq : DisWq) (ret : Ret) (wq' : DisWq) : Type 0 where
  pub inert : wq' ≡ record wq { buf = wq'.buf; head = wq'.head }
  pub entry : DisWqe
  pub buffer : wq'.buf ≡ set wq.buf wq.head entry
  pub array : length entry.page_map_static ≡ length (get_or wq.buf wq.head zero_wqe).page_map_static
  pub moved :
      ((ret ≡ fail 42) × (wq'.head ≡ wq.head))
      ⊎ ((ret ≡ done)
          × (wq'.head ≡ circ_next wq.head wq.wqe_max)
          × (ltb (c.circ_space wq.head wq.tail wq.wqe_max) 1 ≡ false))

module _ (c : CircBuf) (kmalloc : ℕ → Option (ℕ × List Iovec)) (mem : Mem) where
  commit-IsPosted :
      (wq : DisWq) (r : Option (Ret × DisWqe)) (ret : Ret) (wq' : DisWq)
      → ((n : ℕ) (w : DisWqe) → r ≡ some (fail n, w) → n ≡ 42)
      → ((q : Ret) (w : DisWqe)
          → r ≡ some (q, w)
          → length w.page_map_static ≡ length (get_or wq.buf wq.head zero_wqe).page_map_static)
      → ltb (c.circ_space wq.head wq.tail wq.wqe_max) 1 ≡ false
      → commit c kmalloc mem wq r ≡ some (ret, wq')
      → IsPosted c wq ret wq'
  commit-IsPosted wq none ret wq' codes array room e = cc
  commit-IsPosted wq (some (done, w)) ret wq' codes array room e =
      subst (λ (q : Ret × DisWq). IsPosted c wq q.0 q.1) (some-injective _ _ e)
        (record {
          inert = refl;
          entry = w;
          buffer = refl;
          array = array done w refl;
          moved = inr (refl, refl, room);
        })
  commit-IsPosted wq (some (fail n, w)) ret wq' codes array room e =
      subst (λ (q : Ret × DisWq). IsPosted c wq q.0 q.1) (some-injective _ _ e)
        (record {
          inert = refl;
          entry = w;
          buffer = refl;
          array = array (fail n) w refl;
          moved = inl (ap fail (codes n w refl), refl);
        })

  -- Posting returns 0 and moves the head where there was room, or returns -42 and leaves the head; it
  -- touches no other field but the slots.
  pub post_one-IsPosted :
      (opcode : WcOpcode) (wq : DisWq) (wr : IbWr) (ret : Ret) (wq' : DisWq)
      → post_one c kmalloc mem opcode wq wr ≡ some (ret, wq')
      → IsPosted c wq ret wq'
  post_one-IsPosted opcode wq wr ret wq' e = elim (Option-cases (mem.pd_of wq.ibqp)) [
    | inl absent ↦ cc (post_one_orphan c kmalloc mem opcode wq wr absent)
    | inr (pd, found) ↦ elim (Bool-cases (ltb (c.circ_space wq.head wq.tail wq.wqe_max) 1)) [
      | inl full ↦
          subst (λ (q : Ret × DisWq). IsPosted c wq q.0 q.1)
            (some-injective _ _ (sym (post_one_full c kmalloc mem opcode pd wq wr found full) ∙ e))
            (record {
              inert = refl;
              entry = get_or wq.buf wq.head zero_wqe;
              buffer = sym (set_same wq.buf wq.head _ zero_wqe refl);
              array = refl;
              moved = inl (refl, refl);
            })
      | inr room ↦
          commit-IsPosted wq (build_wqe c kmalloc mem opcode pd wq wr) ret wq'
            (λ n w r. build_wqe_fail c kmalloc mem opcode pd wq wr r)
            (λ q w r. build_wqe-array c kmalloc mem opcode pd wq wr r) room
            (sym (post_one_open c kmalloc mem opcode pd wq wr found room) ∙ e)
    ]
  ]

-- The number of slots stays.
pub IsPosted-slots :
    {c : CircBuf} {wq wq' : DisWq} {ret : Ret}
    → IsPosted c wq ret wq'
    → length wq'.buf ≡ length wq.buf
IsPosted-slots {c} {wq} q = ap length q.buffer ∙ length-set wq.buf wq.head q.entry

-- The indices and the slots stay in order.
pub IsPosted-IsQueue :
    {c : CircBuf} {wq wq' : DisWq} {ret : Ret} → IsPosted c wq ret wq' → IsQueue wq → IsQueue wq'
IsPosted-IsQueue {c} {wq} {wq'} q v =
    let size = ap (λ (w : DisWq). w.wqe_max) q.inert in
    let tail = ap (λ (w : DisWq). w.tail) q.inert in
    let slots = IsPosted-slots q in
    elim q.moved [
      | inl (_, head) ↦ same_ring wq wq' head tail size slots v
      | inr (_, head, _) ↦ record { ring = rw (head, tail, size, slots) (IsRing-next_head v.ring) }
    ]

-- And every slot's own array keeps its four elements.
pub IsPosted-IsWq :
    {c : CircBuf} {wq wq' : DisWq} {ret : Ret} → IsPosted c wq ret wq' → IsWq wq → IsWq wq'
IsPosted-IsWq {c} {wq} {wq'} q v =
    let queue = IsPosted-IsQueue q (record { ring = v.ring }) in
    let size = ap (λ (w : DisWq). w.wqe_max) q.inert in
    let array = q.array ∙ v.arrays wq.head v.ring.head_in in
    record {
      ring = queue.ring;
      arrays = λ i lt.
          ap (λ b. length (get_or b i zero_wqe).page_map_static) q.buffer
          ∙ arrays-set wq wq.head q.entry v v.ring.head_in array i (omega arith);
    }
