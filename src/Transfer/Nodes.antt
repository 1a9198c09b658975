-- ===== src/Transfer/Nodes.antt =====
-- Two nodes: what one posts to a send queue arrives in what the other posted to a receive queue.
use dis_kverbs.Common.{
  ℕ, ◌≤◌, ◌<◌, ◌≡◌, sym, ap, ◌∙◌, List, [], ◌∷◌, ◌++◌, Option, some, length, map, map-map,
}
use dis_kverbs.Kernel.{CircBuf}
use dis_kverbs.Pd.{DisPd}
use dis_kverbs.Verbs.{done, Iovec, wc_send, wc_recv, DisCq, DisWq, u16, u32}
use dis_kverbs.Cq.{IbWc, dis_poll_cq}
use dis_kverbs.Cq.Inv.{IsValid, contents}
use dis_kverbs.Post.{Mem, used_sges}
use dis_kverbs.Post.Spec.{sges_len}
use dis_kverbs.Post.Build.{IsWq, wq_contents}
use dis_kverbs.Qp.{DisQp, dis_post_send, dis_post_recv}
use dis_kverbs.Qp.PostList.{Request, wrs_of, AllPostable}
use dis_kverbs.SciIf.{SciReply, answer, sci_ok}
use dis_kverbs.Worker.{Drained, dis_wq_consume_all}
use dis_kverbs.Worker.Tail.{wq_waiting}
use dis_kverbs.Transfer.{transfers, completion, IsTransferred, send-poll, recv-poll}

-- What the kernel of a node hands to the driver, and the domain of its queue pair.
pub record Node : Type 0 where
  pub kmalloc : ℕ → Option (ℕ × List Iovec)
  pub mem : Mem
  pub pd : DisPd

-- The lengths of the messages that requests describe.
abbrev pub lengths : List Request → List ℕ
lengths = map (λ (r : Request). u32 (sges_len (used_sges r.0)))

module _ (c : CircBuf) where
  -- An empty work queue and an empty completion queue, both in order and with room for the requests.
  pub record IsReady (node : Node) (wq : DisWq) (cq : DisCq) (rs : List Request) : Type 0 where
    pub ordered : IsWq wq
    pub none_wait : wq_contents wq ≡ []
    pub space : length rs < wq.wqe_max
    pub found : node.mem.pd_of wq.ibqp ≡ some node.pd
    pub postable : AllPostable c node.kmalloc node.mem node.pd rs
    pub valid : IsValid cq
    pub none_there : contents cq ≡ []
    pub room : length rs < cq.cqe_max

  -- The messages of the requests `rs` of another node arrive in the entries that `ts` made.
  pub record IsDelivered (qp : ℕ) (wq : DisWq) (cq : DisCq) (rs ts : List Request)
      (later : List SciReply) (n : ℕ) : Type 0 where
    pub run : Drained
    pub ran : dis_wq_consume_all c wq.wqe_max wq cq (transfers rs ++ later) ≡ some run
    pub finished : run.ret ≡ done
    pub none_left : wq_waiting run.wq ≡ []
    pub polled : (dis_poll_cq c run.cq n).0 ≡ map (completion wc_recv qp) ts
    pub same_lengths :
        map (λ (w : IbWc). w.byte_len) (dis_poll_cq c run.cq n).0 ≡ map u16 (lengths rs)
    pub then_empty : contents (dis_poll_cq c run.cq n).1 ≡ []

  arrived :
      (qp : ℕ) (wq : DisWq) (cq : DisCq) (rs ts : List Request) (later : List SciReply) (n : ℕ)
      → lengths rs ≡ lengths ts
      → IsTransferred c wc_recv qp wq cq ts later n
      → IsDelivered qp wq cq rs ts later n
  arrived qp wq cq rs ts later n same t =
      let length_of : Request → ℕ = λ r. u32 (sges_len (used_sges r.0)) in
      let reply : ℕ → SciReply = λ l. answer sci_ok l in
      let replies : transfers rs ≡ transfers ts =
        sym (map-map reply length_of rs) ∙ ap (map reply) same ∙ map-map reply length_of ts in
      record {
        run = t.run;
        ran = ap (λ l. dis_wq_consume_all c wq.wqe_max wq cq (l ++ later)) replies ∙ t.ran;
        finished = t.finished;
        none_left = t.none_left;
        polled = t.polled;
        same_lengths =
            ap (map (λ (w : IbWc). w.byte_len)) t.polled
            ∙ map-map (λ (w : IbWc). w.byte_len) (completion wc_recv qp) ts
            ∙ sym (map-map u16 length_of ts)
            ∙ ap (map u16) (sym same);
        then_empty = t.then_empty;
      }

  -- Let two nodes each have an empty queue of its kind and an empty completion queue, with room for the
  -- requests, which posting accepts; the message of each send request is as long as the receive
  -- request at the same place of the other list; and the message library transfers every message
  -- whole, in order and at the first attempt. Then both lists are posted, both workers' runs return 0
  -- and leave no entry, and polls on both nodes report one completion for each request, in order and
  -- with success; the lengths that the receiving node reports are those of the messages modulo 2^16.
  pub deliver :
      (a b : Node) (s r : DisQp) (cq cq' : DisCq) (rs ts : List Request) (next next' : SciReply)
      (later later' : List SciReply) (n m : ℕ)
      → IsReady a s.sq cq rs
      → IsReady b r.rq cq' ts
      → lengths rs ≡ lengths ts
      → length rs ≤ n
      → length ts ≤ m
      → (sq : DisWq) × (rq : DisWq) × (dis_post_send c a.kmalloc a.mem s (wrs_of rs)
          ≡ some (done, record s { sq = sq }))
        × (dis_post_recv c b.kmalloc b.mem r (wrs_of ts) ≡ some (done, record r { rq = rq }))
        × IsTransferred c wc_send s.sq.ibqp sq cq rs (next ∷ later) n
        × IsDelivered r.rq.ibqp rq cq' rs ts (next' ∷ later') m
  deliver a b s r cq cq' rs ts next next' later later' n m p q same enough enough' =
      let (sq, sent, done_there) =
        send-poll c a.kmalloc a.mem a.pd s cq rs next later n p.ordered p.none_wait p.space p.found
          p.postable p.valid p.none_there p.room enough in
      let (rq, posted, done_here) =
        recv-poll c b.kmalloc b.mem b.pd r cq' ts next' later' m q.ordered q.none_wait q.space
          q.found q.postable q.valid q.none_there q.room enough' in
      (
        sq,
        rq,
        sent,
        posted,
        done_there,
        arrived r.rq.ibqp rq cq' rs ts (next' ∷ later') m same done_here,
      )
