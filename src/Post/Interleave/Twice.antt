-- ===== src/Post/Interleave/Twice.antt =====
-- Two threads that post to one work queue, which nothing keeps apart.
use dis_kverbs.Common.{
  ℕ, ◌+◌, ◌<◌, ◌≡◌, refl, ap, ◌∙◌, not, false, ltb, lt→ltb, Option, some, List, [], ◌∷◌, ◌++◌,
  append_assoc, set, length-set,
}
use dis_kverbs.Common.Ring.{ring_contents-set_head}
use dis_kverbs.Kernel.{CircBuf}
use dis_kverbs.Circ.{full_test}
use dis_kverbs.Pd.{DisPd}
use dis_kverbs.Verbs.{done, Iovec, WcOpcode, DisWqe, DisWq, zero_wqe}
use dis_kverbs.Post.{IbWr, Mem, build_wqe}
use dis_kverbs.Post.Build.{IsWq, IsBuilt, wq_used, wq_contents, build_wqe_lem}
use dis_kverbs.Post.Correct.{arrays-set, with_wqe, contents-with_wqe}
use dis_kverbs.Qp.PostList.{Request, IsPostable}
use dis_kverbs.Post.Interleave.{
  WqPoster, idle, WqShared, WqAccess, post_load, post_fill, post_publish,
}

-- The queue with the thread that is inside it now, and where the other one stands.
pub record WqPair : Type 0 where
  pub shared : WqShared
  pub other : WqPoster

module _ (c : CircBuf) (kmalloc : ℕ → Option (ℕ × List Iovec)) (mem : Mem) (opcode : WcOpcode)
    (pd : DisPd) where
  -- An access of the thread that runs, or the other one gets its turn.
  pub data WqPairStep (s : WqPair) : WqPair → Type 0 where
    access :
        {t : WqShared}
        → WqAccess c kmalloc mem opcode pd s.shared t
        → WqPairStep s (record s { shared = t })
    switch :
        WqPairStep s
          (record { shared = record (s.shared) { poster = s.other }; other = s.shared.poster })

  pub data WqPairSteps (s : WqPair) : WqPair → Type 0 where
    start : WqPairSteps s s
    then : {t u : WqPair} → WqPairSteps s t → WqPairStep t u → WqPairSteps s u

  -- Both load the indices before either writes; the second writes over the first one's entry, and
  -- stores the same head.
  both_post :
      (s : WqShared) (a b : IbWr) (wa wb : DisWqe)
      → s.poster ≡ idle
      → ltb (c.circ_space s.wq.head s.wq.tail s.wq.wqe_max) 1 ≡ false
      → build_wqe c kmalloc mem opcode pd s.wq a ≡ some (done, wa)
      → build_wqe c kmalloc mem opcode pd (record (s.wq) { buf = set s.wq.buf s.wq.head wa }) b
        ≡ some (done, wb)
      → WqPairSteps
          (record { shared = s; other = idle })
          (record {
            shared = record s {
              wq = with_wqe (record (s.wq) { buf = set s.wq.buf s.wq.head wa }) wb;
              poster = idle;
              posted = (s.posted ++ wa ∷ []) ++ wb ∷ [];
            };
            other = idle;
          })
  unfolding with_wqe
  both_post s a b wa wb at room built built' =
      let h = s.wq.head in
      let t = s.wq.tail in
      let both_loaded =
        then (then (then start (access (post_load a at))) switch) (access (post_load b refl)) in
      let first_done =
        then (then (then both_loaded switch) (access (post_fill a h t wa refl room built)))
          (access (post_publish wa h refl)) in
      then (then (then first_done switch) (access (post_fill b h t wb refl room built')))
        (access (post_publish wb h refl))

  -- Whenever a valid queue has room for one entry more and no thread posts, two threads can post a
  -- request each, both acceptable, so that both publish their entry, as posting does where it returns 0,
  -- and only the second one's entry is in the queue: it stands behind those that waited, and the
  -- other one is lost.
  pub posted_over :
      (s : WqShared) (a b : Request)
      → IsWq s.wq
      → wq_used s.wq + 1 < s.wq.wqe_max
      → s.poster ≡ idle
      → IsPostable c kmalloc mem pd a
      → IsPostable c kmalloc mem pd b
      → (wa : DisWqe) × (wb : DisWqe) × (t : WqShared) × IsBuilt opcode s.wq a.0 a.1 wa
        × IsBuilt opcode s.wq b.0 b.1 wb
        × WqPairSteps (record { shared = s; other = idle }) (record { shared = t; other = idle })
        × (t.posted ≡ s.posted ++ wa ∷ wb ∷ [])
        × (wq_contents t.wq ≡ wq_contents s.wq ++ wb ∷ [])
  posted_over s a b v room at good good' =
      let r = v.ring in
      let space : ltb (c.circ_space s.wq.head s.wq.tail s.wq.wqe_max) 1 ≡ false =
        full_test r c ∙ ap not (lt→ltb (wq_used s.wq + 1) s.wq.wqe_max room) in
      let (wa, built, is) =
        build_wqe_lem c kmalloc mem opcode pd s.wq a.0 a.1 good.inside good.few good.granted
          (v.arrays s.wq.head r.head_in) in
      let q : DisWq = record (s.wq) { buf = set s.wq.buf s.wq.head wa } in
      let v' : IsWq q = record {
        ring = rw (length-set s.wq.buf s.wq.head wa) r;
        arrays = arrays-set s.wq s.wq.head wa v r.head_in is.array;
      } in
      let (wb, built', is') =
        build_wqe_lem c kmalloc mem opcode pd q b.0 b.1 good'.inside good'.few good'.granted
          (v'.arrays q.head r.head_in) in
      (
        wa,
        wb,
        _,
        is,
        record {
          named = is'.named;
          bytes = is'.bytes;
          elements = is'.elements;
          room = is'.room;
          identity = is'.identity;
          kind = is'.kind;
          owner = is'.owner;
          array = is'.array;
        },
        both_post s a.0 b.0 wa wb at space built built',
        append_assoc s.posted (wa ∷ []) (wb ∷ []),
        contents-with_wqe q wb v' room
            ∙ ap (λ l. l ++ wb ∷ [])
                (ring_contents-set_head zero_wqe s.wq.buf s.wq.wqe_max s.wq.head s.wq.tail r.head_in
                  r.tail_in wa),
      )
