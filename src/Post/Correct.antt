-- ===== src/Post/Correct.antt =====
-- Posting a work request whose segments lie in live regions, to a queue with room.
use dis_kverbs.Common.{
  ℕ, ◌+◌, ◌≤◌, ◌<◌, ◌≡◌, List, [], ◌∷◌, ◌++◌, Option, some, arith, length, refl, ap, ◌∙◌, get_or,
  set, length-set, lt→ltb, get_or-set_self, get_or-set_ne,
}
use native.Mathlib.Decide.{ℕ_discrete}
use dis_kverbs.Common.Ring.{ring_contents_push}
use dis_kverbs.Kernel.{CircBuf}
use dis_kverbs.Circ.{full_test, circ_next-head, IsRing-next_head}
use dis_kverbs.Pd.{DisPd}
use dis_kverbs.Verbs.{
  done, WcOpcode, Iovec, DisMr, DisWqe, DisWq, zero_wqe, circ_next, dis_max_iovlen, dis_sge_per_wqe,
}
use dis_kverbs.Post.{IbWr, Mem, used_sges, build_wqe, post_one}
use dis_kverbs.Post.Spec.{AllIn, sges_counted}
use dis_kverbs.Post.Build.{IsWq, wq_used, wq_contents, Granted, IsBuilt, build_wqe_lem}

-- The queue with an entry written at its head.
unfoldable pub with_wqe : DisWq → DisWqe → DisWq
with_wqe wq wqe = record wq { buf = set wq.buf wq.head wqe; head = circ_next wq.head wq.wqe_max }

-- The arrays of the slots, one of them written.
pub arrays-set :
    (wq : DisWq) (at : ℕ) (wqe : DisWqe)
    → IsWq wq
    → at < wq.wqe_max
    → length wqe.page_map_static ≡ dis_sge_per_wqe
    → (i : ℕ) → i < wq.wqe_max
    → length (get_or (set wq.buf at wqe) i zero_wqe).page_map_static ≡ dis_sge_per_wqe
arrays-set wq at wqe v inside array i lt = elim (ℕ_discrete at i) [
  | yes e ↦ rw (← e) (
      ap (λ (w : DisWqe). length w.page_map_static)
        (get_or-set_self wq.buf at wqe zero_wqe (omega (arith, v.ring)))
      ∙ array)
  | no ne ↦
      ap (λ (w : DisWqe). length w.page_map_static) (get_or-set_ne wq.buf at i wqe zero_wqe ne)
      ∙ v.arrays i lt
]

-- What the entry leaves alone.
pub same-with_wqe :
    (wq : DisWq) (wqe : DisWqe)
    → ((with_wqe wq wqe).ibqp ≡ wq.ibqp) × ((with_wqe wq wqe).wqe_max ≡ wq.wqe_max)
unfolding with_wqe
same-with_wqe wq wqe = (refl, refl)

pub with_wqe-IsWq :
    (wq : DisWq) (wqe : DisWqe)
    → IsWq wq
    → length wqe.page_map_static ≡ dis_sge_per_wqe
    → IsWq (with_wqe wq wqe)
unfolding with_wqe
with_wqe-IsWq wq wqe v array = record {
  ring = rw (length-set wq.buf wq.head wqe) (IsRing-next_head v.ring);
  arrays = arrays-set wq wq.head wqe v v.ring.head_in array;
}

pub contents-with_wqe :
    (wq : DisWq) (wqe : DisWqe)
    → IsWq wq
    → wq_used wq + 1 < wq.wqe_max
    → wq_contents (with_wqe wq wqe) ≡ wq_contents wq ++ wqe ∷ []
unfolding with_wqe
contents-with_wqe wq wqe v room = rw (circ_next-head v.ring) (
    ring_contents_push zero_wqe wq.buf wq.wqe_max wq.head wq.tail v.ring.head_in v.ring.tail_in wqe
      v.ring.filled room)

module _ (c : CircBuf) (kmalloc : ℕ → Option (ℕ × List Iovec)) (mem : Mem) where
  pub post_one_step :
      (opcode : WcOpcode) (pd : DisPd) (wq : DisWq) (wr : IbWr) (wqe : DisWqe)
      → IsWq wq
      → mem.pd_of wq.ibqp ≡ some pd
      → wq_used wq + 1 < wq.wqe_max
      → build_wqe c kmalloc mem opcode pd wq wr ≡ some (done, wqe)
      → post_one c kmalloc mem opcode wq wr ≡ some (done, with_wqe wq wqe)
  unfolding post_one with_wqe
  post_one_step opcode pd wq wr wqe v found room built =
      rw (found, post_one) (rw (full_test v.ring c, lt→ltb (wq_used wq + 1) wq.wqe_max room, built))

  -- The entry is what build_wqe makes.
  pub post_one_made :
      (opcode : WcOpcode) (pd : DisPd) (wq : DisWq) (wr : IbWr) (rs : List DisMr)
      → IsWq wq
      → wq_used wq + 1 < wq.wqe_max
      → mem.pd_of wq.ibqp ≡ some pd
      → AllIn mem.mrs pd rs (used_sges wr)
      → sges_counted rs (used_sges wr) ≤ dis_max_iovlen
      → Granted kmalloc (sges_counted rs (used_sges wr))
      → (wqe : DisWqe) × (build_wqe c kmalloc mem opcode pd wq wr ≡ some (done, wqe))
        × (post_one c kmalloc mem opcode wq wr ≡ some (done, with_wqe wq wqe))
        × IsWq (with_wqe wq wqe)
        × IsBuilt opcode wq wr rs wqe
  post_one_made opcode pd wq wr rs v room found a small granted =
      let (wqe, run, built) =
        build_wqe_lem c kmalloc mem opcode pd wq wr rs a small granted
          (v.arrays wq.head v.ring.head_in) in
      (
        wqe,
        run,
        post_one_step opcode pd wq wr wqe v found room run,
        with_wqe-IsWq wq wqe v built.array,
        built,
      )

  pub post_one_run :
      (opcode : WcOpcode) (pd : DisPd) (wq : DisWq) (wr : IbWr) (rs : List DisMr)
      → IsWq wq
      → wq_used wq + 1 < wq.wqe_max
      → mem.pd_of wq.ibqp ≡ some pd
      → AllIn mem.mrs pd rs (used_sges wr)
      → sges_counted rs (used_sges wr) ≤ dis_max_iovlen
      → Granted kmalloc (sges_counted rs (used_sges wr))
      → (wqe : DisWqe) × (post_one c kmalloc mem opcode wq wr ≡ some (done, with_wqe wq wqe))
        × (wq_contents (with_wqe wq wqe) ≡ wq_contents wq ++ wqe ∷ [])
        × IsWq (with_wqe wq wqe)
        × IsBuilt opcode wq wr rs wqe
  post_one_run opcode pd wq wr rs v room found a small granted =
      let (wqe, _, run, v', built) =
        post_one_made opcode pd wq wr rs v room found a small granted in
      (wqe, run, contents-with_wqe wq wqe v room, v', built)

  -- Let the queue be valid and not full, its protection domain be there, each of the first four
  -- segments of the request lie in the live region that its key names, the elements counted for them
  -- be at most 1024, and kmalloc grant an array of that many where more than four are needed. Then
  -- posting returns 0 and appends one entry to the queue, which stays valid. The entry's first elements,
  -- as many as the segments touch pages, name in order exactly the physical addresses of the
  -- segments' bytes; its iovlen is the number of elements counted, which may be larger. Its length is
  -- the sum of the segments' lengths modulo 2^32, its id the request's modulo 2^32, its kind the
  -- verb's.
  pub post_one_lem :
      (opcode : WcOpcode) (pd : DisPd) (wq : DisWq) (wr : IbWr) (rs : List DisMr)
      → IsWq wq
      → wq_used wq + 1 < wq.wqe_max
      → mem.pd_of wq.ibqp ≡ some pd
      → AllIn mem.mrs pd rs (used_sges wr)
      → sges_counted rs (used_sges wr) ≤ dis_max_iovlen
      → Granted kmalloc (sges_counted rs (used_sges wr))
      → (wqe : DisWqe) × (wq' : DisWq) × (post_one c kmalloc mem opcode wq wr ≡ some (done, wq'))
        × (wq_contents wq' ≡ wq_contents wq ++ wqe ∷ [])
        × IsWq wq'
        × IsBuilt opcode wq wr rs wqe
  post_one_lem opcode pd wq wr rs v room found a small granted =
      let (wqe, run, more, v', built) =
        post_one_run opcode pd wq wr rs v room found a small granted in
      (wqe, with_wqe wq wqe, run, more, v', built)
