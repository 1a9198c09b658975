-- ===== src/Transfer.antt =====
-- The way of a list of requests through the driver: dis_post_send or dis_post_recv, a worker's run of
-- dis_wq_consume_all, and dis_poll_cq.
pub mod Nodes
pub mod Registered
pub mod Stale
mod Tests
use dis_kverbs.Common.{
  take_all, drop_all, length-map, map-map, ℕ, zero, suc, ◌+◌, ◌≤◌, ◌<◌, ◌≡◌, refl, ap, ap₂, sym,
  subst, ◌∙◌, List, [], ◌∷◌, ◌++◌, Option, some, arith, length, length-append, append_assoc,
  append-nil, map, take, drop,
}
use dis_kverbs.Common.Ring.{ring_used, length-ring_contents}
use dis_kverbs.Kernel.{CircBuf}
use dis_kverbs.Pd.{DisPd}
use dis_kverbs.Verbs.{
  done, Iovec, WcOpcode, wc_send, wc_recv, wc_success, DisWqe, DisCqe, DisCq, DisWq, DisWqType,
  zero_wqe, u16, u32,
}
use dis_kverbs.Circ.{ring_used-lt}
use dis_kverbs.Cq.{IbWc, cqe_of, wc_of, dis_poll_cq}
use dis_kverbs.Cq.Inv.{IsValid, used, contents, length-contents}
use dis_kverbs.Cq.Refine.{poll_refines}
use dis_kverbs.Cq.Queue
use dis_kverbs.Post.{Mem, used_sges}
use dis_kverbs.Post.Spec.{sges_len}
use dis_kverbs.Post.Build.{IsBuilt, IsWq, wq_used, wq_contents}
use dis_kverbs.Qp.{DisQp, dis_post_send, dis_post_recv}
use dis_kverbs.Qp.PostList.{
  Request, wrs_of, AllBuilt, AllPostable, dis_post_send_lem, dis_post_recv_lem,
}
use dis_kverbs.SciIf.{SciReply, answer, sci_ok}
use dis_kverbs.Worker.{Drained, complete_sqe, consume_one, kfree_map, dis_wq_consume_all}
use dis_kverbs.Worker.Complete.{complete_sqe-contents}
use dis_kverbs.Worker.Drain.{
  Outcome, drain, IsQueue, wq_waiting, outcome_of, consume_all-drain, drain_more, drain_empty,
}
use dis_kverbs.Worker.Order.{used-added}
use dis_kverbs.Worker.Success.{consume_one_success}
use dis_kverbs.Worker.Whole.{whole, IsWhole, drain-IsWhole}

-- The message library's answers when each request is transferred whole.
abbrev pub transfers : List Request → List SciReply
transfers = map (λ (r : Request). answer sci_ok (u32 (sges_len (used_sges r.0))))

-- The work completion that a request of the pair at `qp` ends in.
abbrev pub completion : WcOpcode → ℕ → Request → IbWc
completion opcode qp r = record {
  wr_id = u32 r.0.wr_id;
  status = wc_success;
  opcode = opcode;
  byte_len = u16 (u32 (sges_len (used_sges r.0)));
  qp = qp;
}

completed :
    {opcode : WcOpcode} {wq : DisWq} {r : Request} {wqe : DisWqe}
    → IsBuilt opcode wq r.0 r.1 wqe
    → wc_of (cqe_of wqe wc_success) ≡ completion opcode wq.ibqp r
unfolding wc_of cqe_of
completed b = cc (b.identity, b.kind, b.bytes, b.owner)

built-transfers :
    (opcode : WcOpcode) (wq : DisWq) (rs : List Request) (wqes : List DisWqe)
    → AllBuilt opcode wq rs wqes
    → (map whole wqes ≡ transfers rs)
      × (map (λ w. wc_of (cqe_of w wc_success)) wqes ≡ map (completion opcode wq.ibqp) rs)
built-transfers opcode wq [] [] b = (refl, refl)
built-transfers opcode wq [] (wqe ∷ wqes) b = elim b [ ]
built-transfers opcode wq (r ∷ rs) [] b = elim b [ ]
built-transfers opcode wq (r ∷ rs) (wqe ∷ wqes) (b, bs) =
    let (replies, wcs) = built-transfers opcode wq rs wqes bs in
    (
      rw (b.bytes) (ap (λ l. answer sci_ok (u32 (sges_len (used_sges r.0))) ∷ l) replies),
      ap₂ ◌∷◌ (completed b) wcs,
    )

module _ (c : CircBuf) where
  -- What became of a list of requests to the pair at `qp`, of which `wq` holds the entries: a worker's
  -- run completes them, and a poll reports them.
  pub record IsTransferred (opcode : WcOpcode) (qp : ℕ) (wq : DisWq) (cq : DisCq)
      (rs : List Request) (later : List SciReply) (n : ℕ) : Type 0 where
    pub run : Drained
    pub ran : dis_wq_consume_all c wq.wqe_max wq cq (transfers rs ++ later) ≡ some run
    pub finished : run.ret ≡ done
    pub none_left : wq_waiting run.wq ≡ []
    pub polled : (dis_poll_cq c run.cq n).0 ≡ map (completion opcode qp) rs
    pub then_empty : contents (dis_poll_cq c run.cq n).1 ≡ []

  poll_all :
      {cq : DisCq} (n : ℕ) (es : List DisCqe)
      → IsValid cq
      → contents cq ≡ es
      → length es ≤ n
      → ((dis_poll_cq c cq n).0 ≡ map wc_of es) × (contents (dis_poll_cq c cq n).1 ≡ [])
  unfolding Queue.pop
  poll_all n es v held enough =
      let (wcs, left, v', size) = poll_refines c n v in
      (
        wcs ∙ ap (map wc_of) (ap (take n) held ∙ take_all n es enough),
        left ∙ ap (drop n) held ∙ drop_all n es enough,
      )

  built-length :
      (opcode : WcOpcode) (wq : DisWq) (rs : List Request) (wqes : List DisWqe)
      → AllBuilt opcode wq rs wqes
      → length wqes ≡ length rs
  built-length opcode wq [] [] b = refl
  built-length opcode wq [] (wqe ∷ wqes) b = elim b [ ]
  built-length opcode wq (r ∷ rs) [] b = elim b [ ]
  built-length opcode wq (r ∷ rs) (wqe ∷ wqes) (b, bs) = ap suc (built-length opcode wq rs wqes bs)

  transferred :
      (opcode : WcOpcode) (old wq : DisWq) (cq : DisCq) (rs : List Request) (wqes : List DisWqe)
      (r : SciReply) (later : List SciReply) (n : ℕ)
      → IsWq wq
      → wq_contents wq ≡ wqes
      → AllBuilt opcode old rs wqes
      → IsValid cq
      → contents cq ≡ []
      → length rs < cq.cqe_max
      → length rs ≤ n
      → IsTransferred opcode old.ibqp wq cq rs (r ∷ later) n
  transferred opcode old wq cq rs wqes r later n w holds built v empty room enough =
      let (replies, wcs) = built-transfers opcode old rs wqes built in
      let size = built-length opcode old rs wqes built in
      let (d, ran, same, w') =
        consume_all-drain c wq.wqe_max wq cq (transfers rs ++ r ∷ later) (record { ring = w.ring })
          (ring_used-lt w.ring) in
      let o : IsWhole c cq wqes (drain c wq.wq_type cq wqes (map whole wqes ++ r ∷ later)) =
        drain-IsWhole c wq.wq_type wqes r later v
          (omega (arith, sym (length-contents cq), ap length empty, size, room)) in
      let o' : IsWhole c cq wqes (outcome_of d) =
        subst (IsWhole c cq wqes)
          (ap₂ (λ l rs. drain c wq.wq_type cq l (rs ++ r ∷ later)) (sym holds) replies ∙ sym same)
          o in
      let (polled, left) =
        poll_all n (map (λ w. cqe_of w wc_success) wqes) o'.valid
          (o'.completed ∙ ap (λ l. l ++ map (λ w. cqe_of w wc_success) wqes) empty)
          (omega (arith, length-map (λ w. cqe_of w wc_success) wqes, size, enough)) in
      record {
        run = d;
        ran = ran;
        finished = o'.finished;
        none_left = o'.empty;
        polled = polled ∙ map-map wc_of (λ w. cqe_of w wc_success) wqes ∙ wcs;
        then_empty = left;
      }

  module _ (kmalloc : ℕ → Option (ℕ × List Iovec)) (mem : Mem) (pd : DisPd) where
    no_used : (wq : DisWq) → wq_contents wq ≡ [] → wq_used wq ≡ 0
    no_used wq empty =
        omega
          (arith, length-ring_contents zero_wqe wq.buf wq.wqe_max wq.head wq.tail, ap length empty)

    -- Requests that posting accepts go to an empty send queue with room for them; the completion queue is
    -- empty too and has room. Then dis_post_send returns 0, and with an answer of the message library
    -- for each entry, in which it is transferred whole, and one answer more, a worker's run returns 0
    -- and leaves no entry. A poll for at least as many completions then gives one for each request, in
    -- the order of the list: with the request's id modulo 2^32, its length modulo 2^16, the status
    -- SUCCESS, the opcode SEND and the pair's address; and it empties the completion queue.
    pub send-poll :
        (qp : DisQp) (cq : DisCq) (rs : List Request) (r : SciReply) (later : List SciReply) (n : ℕ)
        → IsWq qp.sq
        → wq_contents qp.sq ≡ []
        → length rs < qp.sq.wqe_max
        → mem.pd_of qp.sq.ibqp ≡ some pd
        → AllPostable c kmalloc mem pd rs
        → IsValid cq
        → contents cq ≡ []
        → length rs < cq.cqe_max
        → length rs ≤ n
        → (wq : DisWq) × (dis_post_send c kmalloc mem qp (wrs_of rs)
            ≡ some (done, record qp { sq = wq }))
          × IsTransferred wc_send qp.sq.ibqp wq cq rs (r ∷ later) n
    send-poll qp cq rs r later n w none_wait space found ok v empty room enough =
        let (wqes, wq, run, more, w', built) =
          dis_post_send_lem c kmalloc mem pd qp rs w (omega (arith, no_used qp.sq none_wait, space))
            found ok in
        (
          wq,
          run,
          transferred wc_send qp.sq wq cq rs wqes r later n w'
              (more ∙ ap (λ l. l ++ wqes) none_wait) built v empty room enough,
        )

    -- The same of a list of receive requests: with room in an empty receive queue and in an empty
    -- completion queue, dis_post_recv returns 0, and when a message of the full length arrives for each
    -- request at the first attempt, the run completes all of them and a poll reports one completion for
    -- each, in the order of the list, with the opcode RECV.
    pub recv-poll :
        (qp : DisQp) (cq : DisCq) (rs : List Request) (r : SciReply) (later : List SciReply) (n : ℕ)
        → IsWq qp.rq
        → wq_contents qp.rq ≡ []
        → length rs < qp.rq.wqe_max
        → mem.pd_of qp.rq.ibqp ≡ some pd
        → AllPostable c kmalloc mem pd rs
        → IsValid cq
        → contents cq ≡ []
        → length rs < cq.cqe_max
        → length rs ≤ n
        → (wq : DisWq) × (dis_post_recv c kmalloc mem qp (wrs_of rs)
            ≡ some (done, record qp { rq = wq }))
          × IsTransferred wc_recv qp.rq.ibqp wq cq rs (r ∷ later) n
    recv-poll qp cq rs r later n w none_wait space found ok v empty room enough =
        let (wqes, wq, run, more, w', built) =
          dis_post_recv_lem c kmalloc mem pd qp rs w (omega (arith, no_used qp.rq none_wait, space))
            found ok in
        (
          wq,
          run,
          transferred wc_recv qp.rq wq cq rs wqes r later n w'
              (more ∙ ap (λ l. l ++ wqes) none_wait) built v empty room enough,
        )
