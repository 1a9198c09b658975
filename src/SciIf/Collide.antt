-- ===== src/SciIf/Collide.antt =====
-- The first queue pairs of two protection domains: dis_alloc_pd, dis_create_qp and dis_modify_qp of
-- driver/dis_verbs.c, and the message queues that their workers ask for in driver/dis_sci_if.c.
use dis_kverbs.Common.{
  ℕ, suc, ◌≡◌, ◌≢◌, ◌∙◌, ap, length, length-append, [], ◌∷◌, sym, arith, refl, true, some,
}
use dis_kverbs.Kernel.{RoundUp}
use dis_kverbs.Memory.{Heap, load, alloc, fresh, load-alloc, load-alloc_self}
use dis_kverbs.Pd.{DisPd, dis_alloc_pd}
use dis_kverbs.Verbs.{DisWq, DisWqType, dis_qp_ini, wq_exited}
use dis_kverbs.Qp.{DisQp, QpAttr, qps_rtr, dis_modify_qp}
use dis_kverbs.Qp.Modify.{IsStarted, modify_to_rtr}
use dis_kverbs.Qp.Create.{QpInitAttr, QpEnv, QpOut, dis_create_qp, new_qp}
use dis_kverbs.SciIf.{SciParams, create_request, connect_request}

-- All memory is found.
abbrev pub granted : QpEnv
granted = record { qp_alloc = true; sq_alloc = true; rq_alloc = true }

-- The numbers decide what is asked for.
same_create :
    (p : SciParams) (a b : DisWq)
    → a.l_qpn ≡ b.l_qpn
    → a.r_qpn ≡ b.r_qpn
    → create_request p a ≡ create_request p b
unfolding create_request
same_create p a b l r = rw (l, r) refl

same_connect :
    (p : SciParams) (a b : DisWq)
    → a.l_qpn ≡ b.l_qpn
    → a.r_qpn ≡ b.r_qpn
    → connect_request p a ≡ connect_request p b
unfolding connect_request
same_connect p a b l r = rw (l, r) refl

-- The two queues ask for the same message queue, created or connected.
abbrev pub IsSameRequest : SciParams → DisWq → DisWq → Type 0
IsSameRequest p a b =
    (create_request p a ≡ create_request p b) × (connect_request p a ≡ connect_request p b)

started_alike :
    (p : SciParams) {a b : DisWq} {n m i j : ℕ}
    → n ≡ m
    → IsStarted a n i
    → IsStarted b m j
    → IsSameRequest p a b
started_alike p {a} {b} same s t =
    let l : a.l_qpn ≡ b.l_qpn = s.own ∙ same ∙ sym t.own in
    let r : a.r_qpn ≡ b.r_qpn = s.peer ∙ same ∙ sym t.peer in
    (same_create p a b l r, same_connect p a b l r)

module _ (r : RoundUp) (msq_of : ℕ → DisWqType → ℕ) where
  -- A new domain's first pair, which another domain's pair may come before in memory.
  record IsFirst (qps : Heap DisQp) (out : QpOut) (qp : DisQp) : Type 0 where
    at_end : out.result ≡ fresh qps
    live : load out.qps out.result ≡ some qp
    grown : out.qps ≡ alloc qps qp
    number : qp.l_qpn ≡ dis_qp_ini
    rq_new : qp.rq.wq_state ≢ wq_exited
    sq_new : qp.sq.wq_state ≢ wq_exited

  -- The next object has another address.
  later :
      {qps : Heap DisQp} {out out' : QpOut} {qp qp' : DisQp}
      → IsFirst qps out qp
      → IsFirst out.qps out' qp'
      → out.result ≢ out'.result
  later {qps} {out} {out'} {qp} f g same =
      let size = ap length f.grown ∙ length-append qps (some qp ∷ []) in
      omega (arith, f.at_end, g.at_end, same, size)

  first :
      (ibpd dev : ℕ) (pd : DisPd) (qps : Heap DisQp) (attr : QpInitAttr)
      → (qp : DisQp) × IsFirst qps
          (dis_create_qp r msq_of ibpd (dis_alloc_pd pd dev).1 qps attr granted)
          qp
  unfolding dis_create_qp new_qp dis_alloc_pd
  first ibpd dev pd qps attr = (
    new_qp r msq_of ibpd (dis_alloc_pd pd dev).1 (fresh qps) attr,
    record {
      at_end = refl;
      live = load-alloc_self qps (new_qp r msq_of ibpd (dis_alloc_pd pd dev).1 (fresh qps) attr);
      grown = refl;
      number = refl;
      rq_new = λ e. ground (arith, e);
      sq_new = λ e. ground (arith, e);
    },
  )

  -- On one node, let a pair be created in each of two domains that dis_alloc_pd made, as the first one of
  -- its domain and with all memory there, and be moved to RTR with a destination, whatever
  -- destination. The pairs are two live objects; but the workers of their receive queues ask SCILib
  -- for the same message queue, by the same identifiers, whether they create or connect one, and so
  -- do the workers of their send queues.
  pub first_pairs_collide :
      (p : SciParams) (ibpd ibpd' dev : ℕ) (pd pd' : DisPd) (qps : Heap DisQp)
      (attr attr' : QpInitAttr) (rtr rtr' : QpAttr) (a b a' b' : ℕ)
      → rtr.has_state ≡ true
      → rtr.qp_state ≡ qps_rtr
      → rtr.has_dest_qpn ≡ true
      → rtr'.has_state ≡ true
      → rtr'.qp_state ≡ qps_rtr
      → rtr'.has_dest_qpn ≡ true
      → let out = dis_create_qp r msq_of ibpd (dis_alloc_pd pd dev).1 qps attr granted in
        let out' = dis_create_qp r msq_of ibpd' (dis_alloc_pd pd' dev).1 out.qps attr' granted in
        (qp : DisQp) × (qp' : DisQp) × (load out'.qps out.result ≡ some qp)
        × (load out'.qps out'.result ≡ some qp')
        × (out.result ≢ out'.result)
        × IsSameRequest p
            (dis_modify_qp (suc a) (suc b) rtr qp).1.rq
            (dis_modify_qp (suc a') (suc b') rtr' qp').1.rq
        × IsSameRequest p
            (dis_modify_qp (suc a) (suc b) rtr qp).1.sq
            (dis_modify_qp (suc a') (suc b') rtr' qp').1.sq
  first_pairs_collide p ibpd ibpd' dev pd pd' qps attr attr' rtr rtr' a b a' b' s q d s' q' d' =
      let out = dis_create_qp r msq_of ibpd (dis_alloc_pd pd dev).1 qps attr granted in
      let (qp, f) = first ibpd dev pd qps attr in
      let (qp', g) = first ibpd' dev pd' out.qps attr' in
      let (_, _, _, rq, sq) = modify_to_rtr a b rtr qp s q d f.rq_new f.sq_new in
      let (_, _, _, rq', sq') = modify_to_rtr a' b' rtr' qp' s' q' d' g.rq_new g.sq_new in
      let number = f.number ∙ sym g.number in
      (
        qp,
        qp',
        rw g.grown (load-alloc out.qps qp' out.result f.live),
        g.live,
        later f g,
        started_alike p number rq rq',
        started_alike p number sq sq',
      )
