-- ===== src/Device/Bounds.antt =====
-- How long a message can be, against what the port says.
use dis_kverbs.Common.{
  ℕ, ◌+◌, ◌*◌, ◌%◌, ◌≤◌, ◌<◌, ◌≡◌, ◌↔◌, ◌⊎◌, inl, inr, arith, ltb, Bool-cases, tests, List, [], ◌∷◌,
  Option, some, refl, ap, sym, subst, ◌∙◌,
}
use dis_kverbs.Kernel.{CircBuf}
use dis_kverbs.Memory.{Heap}
use dis_kverbs.Pd.{DisPd}
use dis_kverbs.Verbs.{Ret, done, fail, Iovec, WcOpcode, DisMr, DisWq, dis_max_iovlen, page_size}
use dis_kverbs.Post.{IbSge, IbWr, Mem, used_sges, post_one}
use dis_kverbs.Post.Spec.{AllIn, sges_len, sge_counted, sges_counted, region_offset}
use dis_kverbs.Post.Build.{IsWq, wq_used, Granted}
use dis_kverbs.Post.Correct.{post_one_lem}
use dis_kverbs.Post.TooLong.{post_one_too_long}
use dis_kverbs.Device.{IbConsts, dis_query_port}

-- Each segment counts an element for every page that it begins, and one more.
len-lt-counted :
    (mrs : Heap DisMr) (pd : DisPd) (rs : List DisMr) (sges : List IbSge)
    → AllIn mrs pd rs sges
    → (sges ≡ []) ⊎ (sges_len sges < sges_counted rs sges * page_size)
len-lt-counted mrs pd [] [] a = inl refl
len-lt-counted mrs pd [] (sge ∷ sges) a = elim a [ ]
len-lt-counted mrs pd (mr ∷ rs) [] a = elim a [ ]
len-lt-counted mrs pd (mr ∷ rs) (sge ∷ sges) (found, region, inside, rest) =
    inr (elim (len-lt-counted mrs pd rs sges rest) [
      | inl last ↦ omega (arith, ap sges_len last)
      | inr more ↦ omega arith
    ])

fits :
    (mrs : Heap DisMr) (pd : DisPd) (rs : List DisMr) (sges : List IbSge)
    → AllIn mrs pd rs sges
    → sges_counted rs sges ≤ dis_max_iovlen
    → sges_len sges < dis_max_iovlen * page_size
fits mrs pd rs sges a few = elim (len-lt-counted mrs pd rs sges a) [
  | inl empty ↦ omega (arith, ap sges_len empty)
  | inr more ↦ omega arith
]

module _ (k : IbConsts) (port : ℕ) where
  abbrev pub max_msg_sz : ℕ
  max_msg_sz = (dis_query_port k port).1.max_msg_sz

  reported : max_msg_sz ≡ dis_max_iovlen * page_size
  unfolding dis_query_port
  reported = refl

module _ (c : CircBuf) (kmalloc : ℕ → Option (ℕ × List Iovec)) (mem : Mem) where
  -- A request of registered memory that is posted is shorter than the longest message that the port
  -- reports; so its length is below 2^32 and the entry's `byte_len` does not wrap.
  pub posted_fits :
      (k : IbConsts) (port : ℕ) (opcode : WcOpcode) (pd : DisPd) (wq wq' : DisWq) (wr : IbWr)
      (rs : List DisMr)
      → mem.pd_of wq.ibqp ≡ some pd
      → AllIn mem.mrs pd rs (used_sges wr)
      → post_one c kmalloc mem opcode wq wr ≡ some (done, wq')
      → sges_len (used_sges wr) < max_msg_sz k port
  posted_fits k port opcode pd wq wq' wr rs found a run =
      rw (reported k port)
        (elim (Bool-cases (ltb dis_max_iovlen (sges_counted rs (used_sges wr)))) [
          | inl many ↦
              let (w, refused) =
                post_one_too_long c kmalloc mem opcode pd wq wr rs found a (omega (tests, many)) in
              absurd (cc (run, refused))
          | inr few ↦ fits mem.mrs pd rs (used_sges wr) a (omega (tests, few))
        ])

  -- How long a message of one segment can be. Let the queue be in order and have room, its protection
  -- domain be there, the segment lie in the region that its key names, and kmalloc grant an array of
  -- the elements that are counted. Then posting returns, and it returns 0 exactly where the segment's
  -- offset in its first page and its length add up to less than the longest message that the port
  -- reports: a message of that length is never posted.
  pub one_segment_fits :
      (k : IbConsts) (port : ℕ) (opcode : WcOpcode) (pd : DisPd) (wq : DisWq) (wr : IbWr)
      (mr : DisMr) (sge : IbSge)
      → IsWq wq
      → wq_used wq + 1 < wq.wqe_max
      → mem.pd_of wq.ibqp ≡ some pd
      → used_sges wr ≡ sge ∷ []
      → AllIn mem.mrs pd (mr ∷ []) (sge ∷ [])
      → Granted kmalloc (sge_counted mr sge)
      → (ret : Ret) × (wq' : DisWq) × (post_one c kmalloc mem opcode wq wr ≡ some (ret, wq'))
        × ((ret ≡ done) ↔ (region_offset mr sge % page_size + sge.length < max_msg_sz k port))
  one_segment_fits k port opcode pd wq wr mr sge v room found one a granted =
      let within = subst (AllIn mem.mrs pd (mr ∷ [])) (sym one) a in
      let count : sges_counted (mr ∷ []) (used_sges wr) ≡ sge_counted mr sge =
        ap (sges_counted (mr ∷ [])) one ∙ omega arith in
      rw (reported k port) (elim (Bool-cases (ltb dis_max_iovlen (sge_counted mr sge))) [
        | inl many ↦
            let (w, refused) =
              post_one_too_long c kmalloc mem opcode pd wq wr (mr ∷ []) found within
                (omega (tests, many, count)) in
            (fail 42, w, refused, ((λ e. absurd (cc e)), λ short. absurd (omega (tests, many))))
        | inr few ↦
            let (wqe, w, posted, more, v1, built) =
              post_one_lem c kmalloc mem opcode pd wq wr (mr ∷ []) v room found within
                (omega (tests, few, count)) (subst (Granted kmalloc) (sym count) granted) in
            (done, w, posted, ((λ e. omega (tests, few)), λ short. refl))
      ])
