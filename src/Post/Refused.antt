-- ===== src/Post/Refused.antt =====
-- Posting where the request is refused, and where it has undefined behaviour.
use dis_kverbs.Common.{
  ℕ, ◌+◌, ◌<◌, ◌≡◌, List, [], ◌∷◌, ◌++◌, inl, inr, Bool-cases, get_or, Option, none, some, arith,
  ltb, Bool, true, false, refl, ap, ◌∙◌, sym, set, lt→ltb,
}
use mathlib.Core.Option.{some-injective}
use dis_kverbs.Common.Ring.{ring_contents-set_head}
use dis_kverbs.Kernel.{CircBuf}
use dis_kverbs.Circ.{full_test}
use dis_kverbs.Memory.{Heap}
use dis_kverbs.Pd.{DisPd}
use dis_kverbs.Verbs.{Ret, done, fail, WcOpcode, Iovec, DisMr, DisWqe, DisWq, zero_wqe}
use dis_kverbs.Post.{
  IbSge, IbWr, Mem, used_sges, build_wqe, commit, post_one, Counted, count_fault, count_refused,
  counted, Store, no_store, stored, DisSgeMap, fill_stored, map_counted, choose_store, count_sges,
  prepend, dma_map, page_map, put_dma, put_pages, map_sge, init_wqe,
}
use dis_kverbs.Mr.Lookup.{lookup_mr, lookup_fault, lookup_found, IsBadKey, lookup_mr-bad}
use dis_kverbs.Post.Build.{IsWq, wq_used, wq_contents}

-- The key of each segment names a live region.
abbrev pub AllFound : Heap DisMr → DisPd → List IbSge → Type 0
AllFound mrs pd [] = Unit
AllFound mrs pd (sge ∷ sges) =
    ((mr : DisMr) × (lookup_mr mrs pd sge.lkey ≡ lookup_found mr)) × AllFound mrs pd sges

-- The first loop gets to the segment, and reads through its key.
count_sges_bad :
    (mrs : Heap DisMr) (pd : DisPd) (i : ℕ) (before : List IbSge) (sge : IbSge) (after : List IbSge)
    (wqe : DisWqe)
    → AllFound mrs pd before
    → lookup_mr mrs pd sge.lkey ≡ lookup_fault
    → count_sges mrs pd i (before ++ sge ∷ after) wqe ≡ count_fault
unfolding count_sges
count_sges_bad mrs pd i [] sge after wqe known bad = rw (bad, count_sges) refl
count_sges_bad mrs pd i (s ∷ before) sge after wqe ((mr, e), known) bad =
    elim (Bool-cases mr.is_dma) [
      | inl dma ↦
          rw (e, count_sges)
            (rw dma (
              ap (prepend dma_map)
                (count_sges_bad mrs pd (i + 1) before sge after (put_dma i s wqe) known bad)))
      | inr paged ↦
          rw (e, count_sges)
            (rw paged (
              ap (prepend (page_map (map_sge mr s))) (
                count_sges_bad mrs pd (i + 1) before sge after (put_pages (map_sge mr s) wqe) known
                  bad)))
    ]

module _ (c : CircBuf) (kmalloc : ℕ → Option (ℕ × List Iovec)) (mem : Mem) where
  fill_stored_fail :
      (ms : List DisSgeMap) (s : Store) {n : ℕ} {wqe : DisWqe}
      → fill_stored c kmalloc mem ms s ≡ some (fail n, wqe)
      → n ≡ 42
  unfolding fill_stored
  fill_stored_fail ms (no_store w) e = ground arith
  fill_stored_fail ms (stored w) e = ground arith

  map_counted_fail :
      (r : Counted) {n : ℕ} {wqe : DisWqe}
      → map_counted c kmalloc mem r ≡ some (fail n, wqe)
      → n ≡ 42
  unfolding map_counted
  map_counted_fail count_fault e = cc
  map_counted_fail (count_refused w) e = ground arith
  map_counted_fail (counted w ms) e = fill_stored_fail ms (choose_store kmalloc w) e

  pub build_wqe_fail :
      (opcode : WcOpcode) (pd : DisPd) (wq : DisWq) (wr : IbWr) {n : ℕ} {wqe : DisWqe}
      → build_wqe c kmalloc mem opcode pd wq wr ≡ some (fail n, wqe)
      → n ≡ 42
  unfolding build_wqe
  build_wqe_fail opcode pd wq wr e = map_counted_fail _ e

  -- What a refused request leaves behind.
  record IsUnposted (wq : DisWq) (n : ℕ) (wq' : DisWq) : Type 0 where
    code : n ≡ 42
    waiting : wq_contents wq' ≡ wq_contents wq
    same_head : wq'.head ≡ wq.head
    same_tail : wq'.tail ≡ wq.tail

  commit_fail :
      (wq wq' : DisWq) (r : Option (Ret × DisWqe)) (n : ℕ)
      → IsWq wq
      → ((m : ℕ) (w : DisWqe) → r ≡ some (fail m, w) → m ≡ 42)
      → commit c kmalloc mem wq r ≡ some (fail n, wq')
      → IsUnposted wq n wq'
  commit_fail wq wq' none n v codes e = cc
  commit_fail wq wq' (some (done, w)) n v codes e = cc
  commit_fail wq wq' (some (fail m, w)) n v codes e =
      let reached : record wq { buf = set wq.buf wq.head w } ≡ wq' =
        ap (λ (p : Ret × DisWq). p.1) (some-injective _ _ e) in
      rw (sym reached) (record {
        code = cc (codes m w refl);
        waiting =
            ring_contents-set_head zero_wqe wq.buf wq.wqe_max wq.head wq.tail v.ring.head_in
              v.ring.tail_in w;
        same_head = refl;
        same_tail = refl;
      })

  post_full_lem :
      (wq wq' : DisWq) (n : ℕ)
      → ◌≡◌ {A = Option (Ret × DisWq)} (some (fail 42, wq)) (some (fail n, wq'))
      → IsUnposted wq n wq'
  post_full_lem wq wq' n e =
      let reached : wq ≡ wq' = ap (λ (p : Ret × DisWq). p.1) (some-injective _ _ e) in
      rw (sym reached) (record { code = cc; waiting = refl; same_head = refl; same_tail = refl })

  -- A queue whose queue pair is not there cannot be posted to.
  pub post_one_orphan :
      (opcode : WcOpcode) (wq : DisWq) (wr : IbWr)
      → mem.pd_of wq.ibqp ≡ none
      → post_one c kmalloc mem opcode wq wr ≡ none
  unfolding post_one
  post_one_orphan opcode wq wr e = rw (e, post_one) refl

  pub post_one_open :
      (opcode : WcOpcode) (pd : DisPd) (wq : DisWq) (wr : IbWr)
      → mem.pd_of wq.ibqp ≡ some pd
      → ltb (c.circ_space wq.head wq.tail wq.wqe_max) 1 ≡ false
      → post_one c kmalloc mem opcode wq wr
        ≡ commit c kmalloc mem wq (build_wqe c kmalloc mem opcode pd wq wr)
  unfolding post_one
  post_one_open opcode pd wq wr found room = rw (found, post_one) (rw room)

  pub post_one_full :
      (opcode : WcOpcode) (pd : DisPd) (wq : DisWq) (wr : IbWr)
      → mem.pd_of wq.ibqp ≡ some pd
      → ltb (c.circ_space wq.head wq.tail wq.wqe_max) 1 ≡ true
      → post_one c kmalloc mem opcode wq wr ≡ some (fail 42, wq)
  unfolding post_one
  post_one_full opcode pd wq wr found full = rw (found, post_one) (rw full)

  post_one-IsUnposted :
      (opcode : WcOpcode) (wq : DisWq) (wr : IbWr) (n : ℕ) (wq' : DisWq) (p : Option DisPd)
      (full : Bool)
      → IsWq wq
      → mem.pd_of wq.ibqp ≡ p
      → ltb (c.circ_space wq.head wq.tail wq.wqe_max) 1 ≡ full
      → post_one c kmalloc mem opcode wq wr ≡ some (fail n, wq')
      → IsUnposted wq n wq'
  unfolding post_one build_wqe
  post_one-IsUnposted opcode wq wr n wq' none full v pd_eq full_eq e = absurd (ground arith)
  post_one-IsUnposted opcode wq wr n wq' (some pd) true v pd_eq full_eq e =
      post_full_lem wq wq' n (sym (post_one_full opcode pd wq wr pd_eq full_eq) ∙ e)
  post_one-IsUnposted opcode wq wr n wq' (some pd) false v pd_eq full_eq e =
      commit_fail wq wq' (build_wqe c kmalloc mem opcode pd wq wr) n v
        (λ m w r. map_counted_fail _ r) (sym (post_one_open opcode pd wq wr pd_eq full_eq) ∙ e)

  -- A request that is refused (no room, a key without a region, too many elements, no memory) is
  -- refused with -42, and the entries that wait and both indices stay as they were.
  pub post_one_refused :
      (opcode : WcOpcode) (wq : DisWq) (wr : IbWr) (n : ℕ) (wq' : DisWq)
      → IsWq wq
      → post_one c kmalloc mem opcode wq wr ≡ some (fail n, wq')
      → (n ≡ 42) × (wq_contents wq' ≡ wq_contents wq) × (wq'.head ≡ wq.head) × (wq'.tail ≡ wq.tail)
  post_one_refused opcode wq wr n wq' v e =
      let u =
        post_one-IsUnposted opcode wq wr n wq' (mem.pd_of wq.ibqp)
          (ltb (c.circ_space wq.head wq.tail wq.wqe_max) 1) v refl refl e in
      (u.code, u.waiting, u.same_head, u.same_tail)

  -- A segment's key lies outside the domain's table `mr_list`, or the table still holds the address of
  -- a region that was freed under it, and the keys of the segments before it name live regions. Then
  -- posting the request to a queue with room has undefined behaviour: the verb reads through
  -- the key without a check.
  pub post_one_bad_key :
      (opcode : WcOpcode) (pd : DisPd) (wq : DisWq) (wr : IbWr) (before : List IbSge) (sge : IbSge)
      (after : List IbSge)
      → IsWq wq
      → wq_used wq + 1 < wq.wqe_max
      → mem.pd_of wq.ibqp ≡ some pd
      → used_sges wr ≡ before ++ sge ∷ after
      → AllFound mem.mrs pd before
      → IsBadKey mem.mrs pd sge.lkey
      → post_one c kmalloc mem opcode wq wr ≡ none
  unfolding post_one build_wqe map_counted
  post_one_bad_key opcode pd wq wr before sge after v room found shape known bad =
      let faults =
        count_sges_bad mem.mrs pd 0 before sge after
          (init_wqe opcode wq wr (get_or wq.buf wq.head zero_wqe)) known
          (lookup_mr-bad mem.mrs pd sge.lkey bad) in
      rw (found, post_one)
        (rw (full_test v.ring c, lt→ltb (wq_used wq + 1) wq.wqe_max room)
          (rw (shape, build_wqe) (rw (faults, map_counted) refl)))
