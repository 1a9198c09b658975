-- ===== src/SciIf/Pairing.antt =====
-- Which message queues of two nodes meet.
use dis_kverbs.Common.{ℕ, ◌^◌, ◌<◌, ◌≡◌, ◌≢◌, ◌↔◌, refl, not, arith, if◌then◌else◌}
use dis_kverbs.Verbs.{DisWq}
use dis_kverbs.SciIf.{
  SciParams, MsqRequest, create_request, connect_request, dis_sci_if_connect_msq,
  dis_sci_if_create_msq, SciError, sci_ret,
}

-- Two ends of a message queue meet when each names the other's identifier.
pub record Meets (a b : MsqRequest) : Type 0 where
  pub there : a.l_msq_id ≡ b.r_msq_id
  pub back : b.l_msq_id ≡ a.r_msq_id

-- The number by which a queue names its peer.
unfoldable pub peer_qpn : SciParams → DisWq → ℕ
peer_qpn p wq = if p.use_l_qpn then wq.l_qpn else wq.r_qpn

-- Queue numbers of which twice and one more fit a signed 32-bit variable.
pub record IsNumbered (wq : DisWq) : Type 0 where
  pub l_fits : wq.l_qpn < 2 ^ 30
  pub r_fits : wq.r_qpn < 2 ^ 30

create-connect-Meets :
    (p q : SciParams) (rq sq : DisWq)
    → q.is_initiator ≡ not p.is_initiator
    → rq.l_qpn ≡ peer_qpn q sq
    → sq.l_qpn ≡ peer_qpn p rq
    → Meets (create_request p rq) (connect_request q sq)
unfolding create_request connect_request peer_qpn
create-connect-Meets p q rq sq opposite there back = record {
  there = ground (arith, opposite, there);
  back = ground (arith, opposite, back);
}

Meets-only :
    (p q : SciParams) (rq sq : DisWq)
    → IsNumbered rq
    → IsNumbered sq
    → Meets (create_request p rq) (connect_request q sq)
    → (q.is_initiator ≡ not p.is_initiator)
      × (rq.l_qpn ≡ peer_qpn q sq)
      × (sq.l_qpn ≡ peer_qpn p rq)
unfolding create_request connect_request peer_qpn
Meets-only p q rq sq nr ns m =
    ground (arith, m.there, m.back, nr.l_fits, nr.r_fits, ns.l_fits, ns.r_fits)

-- With queue numbers below 2^30, the message queue that a receive queue creates and the one that a send
-- queue connects to meet exactly where one of the nodes is the initiator and the other not, and each
-- queue names the other's number as its peer's.
pub Meets-iff :
    (p q : SciParams) (rq sq : DisWq)
    → IsNumbered rq
    → IsNumbered sq
    → Meets (create_request p rq) (connect_request q sq) ↔ (
        (q.is_initiator ≡ not p.is_initiator)
        × (rq.l_qpn ≡ peer_qpn q sq)
        × (sq.l_qpn ≡ peer_qpn p rq))
Meets-iff p q rq sq nr ns = (
  Meets-only p q rq sq nr ns,
  λ (opposite, there, back). create-connect-Meets p q rq sq opposite there back,
)

-- Two queues on one node whose own numbers differ, and whose own and peer's numbers lie below 2^30, never
-- get the same message queue identifier, whether each of them receives or sends; and a receiving
-- and a sending queue of the same numbers have different ones, too.
pub msq_ids_apart :
    (p : SciParams) (a b : DisWq)
    → IsNumbered a
    → IsNumbered b
    → a.l_qpn ≢ b.l_qpn
    → ((create_request p a).l_msq_id ≢ (connect_request p a).l_msq_id)
      × ((create_request p a).l_msq_id ≢ (create_request p b).l_msq_id)
      × ((connect_request p a).l_msq_id ≢ (connect_request p b).l_msq_id)
      × ((create_request p a).l_msq_id ≢ (connect_request p b).l_msq_id)
unfolding create_request connect_request
msq_ids_apart p a b na nb ne = (
  ground (arith, na.l_fits, nb.l_fits),
  ground (arith, na.l_fits, nb.l_fits, ne),
  ground (arith, na.l_fits, nb.l_fits, ne),
  ground (arith, na.l_fits, nb.l_fits, ne),
)

-- The library's answer decides the result of an attempt.
pub create_answered :
    (p : SciParams) (err : SciError) (wq : DisWq)
    → dis_sci_if_create_msq p (λ _. err) wq ≡ sci_ret err
unfolding dis_sci_if_create_msq
create_answered p err wq = refl

pub connect_answered :
    (p : SciParams) (err : SciError) (wq : DisWq)
    → dis_sci_if_connect_msq p (λ _. err) wq ≡ sci_ret err
unfolding dis_sci_if_connect_msq
connect_answered p err wq = refl
