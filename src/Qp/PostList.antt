-- ===== src/Qp/PostList.antt =====
-- Posting a list of requests.
use dis_kverbs.Common.{
  ℕ, ◌+◌, ◌≤◌, ◌<◌, ◌≡◌, refl, ap, sym, subst, ◌∙◌, List, [], ◌∷◌, ◌++◌, Option, none, some, arith,
  length, length-append, append_assoc, append-nil, map,
}
use dis_kverbs.Common.Ring.{length-ring_contents}
use dis_kverbs.Kernel.{CircBuf}
use dis_kverbs.Pd.{DisPd}
use dis_kverbs.Verbs.{
  Ret, done, Iovec, WcOpcode, wc_send, wc_recv, DisMr, DisWqe, DisWq, zero_wqe, dis_max_iovlen,
}
use dis_kverbs.Post.{IbWr, Mem, used_sges, post_one, dis_qp_post_one_sqe, dis_qp_post_one_rqe}
use dis_kverbs.Post.Spec.{AllIn, sges_counted}
use dis_kverbs.Post.Build.{IsWq, wq_used, wq_contents, Granted, IsBuilt}
use dis_kverbs.Post.Correct.{with_wqe, same-with_wqe, post_one_run}
use dis_kverbs.Qp.Notify.{notified}
use dis_kverbs.Qp.{DisQp, dis_qp_notify, post_all, with_sq, with_rq, dis_post_send, dis_post_recv}

-- A request with the regions that its segments lie in.
abbrev pub Request : Type 0
Request = IbWr × List DisMr

abbrev pub wrs_of : List Request → List IbWr
wrs_of = map (λ (r : Request). r.0)

-- Every entry is the one that its request makes.
abbrev pub AllBuilt : WcOpcode → DisWq → List Request → List DisWqe → Type 0
AllBuilt opcode wq [] [] = Unit
AllBuilt opcode wq (r ∷ rs) (wqe ∷ wqes) =
    IsBuilt opcode wq r.0 r.1 wqe × AllBuilt opcode wq rs wqes
AllBuilt opcode wq _ _ = ⊥

-- What a notification leaves alone.
record IsNotified (wq wq' : DisWq) : Type 0 where
  same_ibqp : wq'.ibqp ≡ wq.ibqp
  same_max : wq'.wqe_max ≡ wq.wqe_max
  same_contents : wq_contents wq' ≡ wq_contents wq
  ordered : IsWq wq'

notify_lem : (wq : DisWq) → IsWq wq → IsNotified wq (dis_qp_notify wq).1
notify_lem wq v = subst (IsNotified wq) (sym (notified wq)) (record {
  same_ibqp = refl;
  same_max = refl;
  same_contents = refl;
  ordered = record { ring = v.ring; arrays = v.arrays };
})

post_all_none :
    (post : DisWq → IbWr → Option (Ret × DisWq)) (wq : DisWq)
    → post_all post wq [] ≡ some (done, wq)
unfolding post_all
post_all_none post wq = refl

post_all_more :
    (post : DisWq → IbWr → Option (Ret × DisWq)) (wq wq' : DisWq) (wr : IbWr) (wrs : List IbWr)
    → post wq wr ≡ some (done, wq')
    → post_all post wq (wr ∷ wrs) ≡ post_all post (dis_qp_notify wq').1 wrs
unfolding post_all
post_all_more post wq wq' wr wrs e = rw (e, post_all) refl

pub post_all_fault :
    (post : DisWq → IbWr → Option (Ret × DisWq)) (wq : DisWq) (wr : IbWr) (wrs : List IbWr)
    → post wq wr ≡ none
    → post_all post wq (wr ∷ wrs) ≡ none
unfolding post_all
post_all_fault post wq wr wrs e = rw (e, post_all) refl

used_more :
    (wq wq' : DisWq) (wqe : DisWqe)
    → wq_contents wq' ≡ wq_contents wq ++ wqe ∷ []
    → wq_used wq' ≡ wq_used wq + 1
used_more wq wq' wqe more = omega (
  arith,
  length-ring_contents zero_wqe wq'.buf wq'.wqe_max wq'.head wq'.tail,
  ap length more,
  length-append (wq_contents wq) (wqe ∷ []),
  length-ring_contents zero_wqe wq.buf wq.wqe_max wq.head wq.tail,
)

rebuilt :
    (opcode : WcOpcode) (wq wq' : DisWq) (rs : List Request) (wqes : List DisWqe)
    → wq.ibqp ≡ wq'.ibqp
    → AllBuilt opcode wq rs wqes
    → AllBuilt opcode wq' rs wqes
rebuilt opcode wq wq' [] [] e b = tt
rebuilt opcode wq wq' [] (wqe ∷ wqes) e b = elim b [ ]
rebuilt opcode wq wq' (r ∷ rs) [] e b = elim b [ ]
rebuilt opcode wq wq' (r ∷ rs) (wqe ∷ wqes) e (b, bs) = (
  record {
    named = b.named;
    bytes = b.bytes;
    elements = b.elements;
    room = b.room;
    identity = b.identity;
    kind = b.kind;
    owner = b.owner ∙ e;
    array = b.array;
  },
  rebuilt opcode wq wq' rs wqes e bs,
)

module _ (c : CircBuf) (kmalloc : ℕ → Option (ℕ × List Iovec)) (mem : Mem) where
  -- A request that posting to a queue with room accepts.
  pub record IsPostable (pd : DisPd) (r : Request) : Type 0 where
    pub inside : AllIn mem.mrs pd r.1 (used_sges r.0)
    pub few : sges_counted r.1 (used_sges r.0) ≤ dis_max_iovlen
    pub granted : Granted kmalloc (sges_counted r.1 (used_sges r.0))

  abbrev pub AllPostable : DisPd → List Request → Type 0
  AllPostable pd [] = Unit
  AllPostable pd (r ∷ rs) = IsPostable pd r × AllPostable pd rs

  post_all_lem :
      (opcode : WcOpcode) (pd : DisPd) (wq : DisWq) (rs : List Request)
      → IsWq wq
      → wq_used wq + length rs < wq.wqe_max
      → mem.pd_of wq.ibqp ≡ some pd
      → AllPostable pd rs
      → (wqes : List DisWqe) × (wq' : DisWq) × (post_all
            (post_one c kmalloc mem opcode)
            wq
            (wrs_of rs)
          ≡ some (done, wq'))
        × (wq_contents wq' ≡ wq_contents wq ++ wqes)
        × IsWq wq'
        × AllBuilt opcode wq rs wqes
  post_all_lem opcode pd wq [] v room found ok = (
    [],
    wq,
    post_all_none (post_one c kmalloc mem opcode) wq,
    sym (append-nil (wq_contents wq)),
    v,
    tt,
  )
  post_all_lem opcode pd wq (r ∷ rs) v room found (here, there) =
      let (wqe, run, more, v1, built) =
        post_one_run c kmalloc mem opcode pd wq r.0 r.1 v (omega (arith, room)) found here.inside
          here.few here.granted in
      let wq1 = with_wqe wq wqe in
      let wq2 = (dis_qp_notify wq1).1 in
      let same = same-with_wqe wq wqe in
      let told = notify_lem wq1 v1 in
      let size = used_more wq wq2 wqe (told.same_contents ∙ more) in
      let owner : wq2.ibqp ≡ wq.ibqp = told.same_ibqp ∙ same.0 in
      let (wqes, wq', rest, appended, v', all_built) =
        post_all_lem opcode pd wq2 rs told.ordered
          (omega (arith, room, size, told.same_max, same.1)) (ap mem.pd_of owner ∙ found) there in
      (
        wqe ∷ wqes,
        wq',
        post_all_more (post_one c kmalloc mem opcode) wq wq1 r.0 (wrs_of rs) run ∙ rest,
        appended
            ∙ ap (λ l. l ++ wqes) (told.same_contents ∙ more)
            ∙ append_assoc (wq_contents wq) (wqe ∷ []) wqes,
        v',
        (built, rebuilt opcode wq2 wq rs wqes owner all_built),
      )

  -- Let the send queue be valid with room for all requests, its protection domain be there, and each
  -- request be one that posting accepts. Then posting the list of send requests returns 0, appends
  -- one entry to the send queue for each request, in the order of the list, each as its request makes
  -- it, and changes nothing else of the queue pair; the send queue stays valid.
  pub dis_post_send_lem :
      (pd : DisPd) (qp : DisQp) (rs : List Request)
      → IsWq qp.sq
      → wq_used qp.sq + length rs < qp.sq.wqe_max
      → mem.pd_of qp.sq.ibqp ≡ some pd
      → AllPostable pd rs
      → (wqes : List DisWqe) × (wq' : DisWq) × (dis_post_send c kmalloc mem qp (wrs_of rs)
          ≡ some (done, record qp { sq = wq' }))
        × (wq_contents wq' ≡ wq_contents qp.sq ++ wqes)
        × IsWq wq'
        × AllBuilt wc_send qp.sq rs wqes
  unfolding dis_post_send dis_qp_post_one_sqe
  dis_post_send_lem pd qp rs v room found ok =
      let (wqes, wq', run, more, v', built) = post_all_lem wc_send pd qp.sq rs v room found ok in
      (wqes, wq', ap (with_sq c kmalloc mem qp) run, more, v', built)

  -- Let the receive queue be valid with room for all requests, its protection domain be there, and
  -- each request be one that posting accepts. Then posting the list of receive requests returns 0,
  -- appends one entry to the receive queue for each request, in the order of the list, each as its
  -- request makes it, and changes nothing else of the queue pair; the receive queue stays valid.
  pub dis_post_recv_lem :
      (pd : DisPd) (qp : DisQp) (rs : List Request)
      → IsWq qp.rq
      → wq_used qp.rq + length rs < qp.rq.wqe_max
      → mem.pd_of qp.rq.ibqp ≡ some pd
      → AllPostable pd rs
      → (wqes : List DisWqe) × (wq' : DisWq) × (dis_post_recv c kmalloc mem qp (wrs_of rs)
          ≡ some (done, record qp { rq = wq' }))
        × (wq_contents wq' ≡ wq_contents qp.rq ++ wqes)
        × IsWq wq'
        × AllBuilt wc_recv qp.rq rs wqes
  unfolding dis_post_recv dis_qp_post_one_rqe
  dis_post_recv_lem pd qp rs v room found ok =
      let (wqes, wq', run, more, v', built) = post_all_lem wc_recv pd qp.rq rs v room found ok in
      (wqes, wq', ap (with_rq c kmalloc mem qp) run, more, v', built)
