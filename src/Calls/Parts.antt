-- ===== src/Calls/Parts.antt =====
-- The invariant of the objects of a domain, where some of them change.
use dis_kverbs.Common.{ℕ, ◌≡◌, inl, inr, refl, ◌∙◌, arith, some, length-set, get_elem?-set_self}
use dis_kverbs.Memory.{Heap, load, fresh}
use dis_kverbs.Memory.All.{All, All-alloc, All-store, All-map}
use dis_kverbs.Verbs.{Ret, done, fail, DisMr, DisCq}
use dis_kverbs.Mr.{MrOut}
use dis_kverbs.Mr.Effect.{IsEffect}
use dis_kverbs.Mr.Inv.{enter_lem}
use dis_kverbs.Cq.Inv.{IsValid}
use dis_kverbs.Qp.{DisQp}
use dis_kverbs.Qp.Keeps.{IsKeptPair}
use dis_kverbs.Qp.Create.{QpOut}
use dis_kverbs.Qp.Create.Effect.{IsAdded}
use dis_kverbs.Worker.{Drained}
use dis_kverbs.Worker.Keeps.{IsRun}
use dis_kverbs.Calls.{sq_worked, rq_worked, Objects, with_regions, with_cq, with_qp}
use dis_kverbs.Calls.Inv.{IsKeyed, IsPair, IsObjects, entered, numbered}

module _ (o : Objects) (v : IsObjects o) where
  pub with_cqs : (h : Heap DisCq) → All (λ a cq. IsValid cq) h → IsObjects (record o { cqs = h })
  with_cqs h all = record {
    keys = v.keys;
    numbers = v.numbers;
    from = v.from;
    upto = v.upto;
    regions = v.regions;
    queues = all;
    pairs = v.pairs;
  }

  pub with_mrs : (h : Heap DisMr) → All (IsKeyed o.pd) h → IsObjects (record o { mrs = h })
  with_mrs h all = record {
    keys = v.keys;
    numbers = v.numbers;
    from = v.from;
    upto = v.upto;
    regions = all;
    queues = v.queues;
    pairs = v.pairs;
  }

  pub with_qps : (h : Heap DisQp) → All (IsPair o.pd) h → IsObjects (record o { qps = h })
  with_qps h all = record {
    keys = v.keys;
    numbers = v.numbers;
    from = v.from;
    upto = v.upto;
    regions = v.regions;
    queues = v.queues;
    pairs = all;
  }

  pub regions-IsObjects : (out : MrOut) → IsEffect o.pd o.mrs out → IsObjects (with_regions o out)
  regions-IsObjects out (inl (same_pd, same_mrs)) = rw (same_pd, same_mrs) v
  regions-IsObjects out (inr (mr, room, new_pd, new_mrs)) =
      rw (new_pd, new_mrs)
        (record {
          keys = (enter_lem o.pd o.mrs mr v.keys room).ordered;
          numbers = v.numbers;
          from = v.from;
          upto = v.upto;
          regions = entered o.pd o.mrs mr v.keys room v.regions;
          queues = v.queues;
          pairs =
              All-map {P = IsPair o.pd} o.qps
                (λ a x p. record {
                  low = p.low;
                  given = p.given;
                  named = p.named;
                  sq_ordered = p.sq_ordered;
                  rq_ordered = p.rq_ordered;
                  sq_owner = p.sq_owner;
                  rq_owner = p.rq_owner;
                })
                v.pairs;
        })

  pub pair-IsObjects :
      (out : QpOut) → IsAdded o.pd o.qps out → IsObjects (record o { pd = out.pd; qps = out.qps })
  pair-IsObjects out (inl (same_pd, same_qps)) = rw (same_pd, same_qps) v
  pair-IsObjects out (inr (qp, room, new_pd, new_qps, made)) =
      rw (new_pd, new_qps)
        (record {
          keys = record { table = v.keys.table; keys = v.keys.keys };
          numbers = length-set o.pd.qp_list o.pd.qp_c (fresh o.qps) ∙ v.numbers;
          from = omega (arith, v.from);
          upto = omega (arith, room);
          regions = v.regions;
          queues = v.queues;
          pairs =
              numbered o.pd o.qps qp v.numbers room
                (record {
                  low = rw made.number v.from;
                  given = rw made.number (omega arith);
                  named = rw made.number (
                      get_elem?-set_self o.pd.qp_list o.pd.qp_c (fresh o.qps)
                        (omega (arith, room, v.numbers)));
                  sq_ordered = made.sq_ordered;
                  rq_ordered = made.rq_ordered;
                  sq_owner = made.sq_owner;
                  rq_owner = made.rq_owner;
                })
                v.pairs;
        })

  pub created-IsObjects :
      (out : Ret × DisCq) → (out.0 ≡ done → IsValid out.1) → IsObjects (with_cq o out)
  created-IsObjects (done, cq) valid =
      with_cqs _ (All-alloc (λ a cq. IsValid cq) o.cqs cq v.queues (valid refl))
  created-IsObjects (fail n, cq) valid = v

  pub kept-IsObjects :
      (a : ℕ) (qp : DisQp) (out : Ret × DisQp)
      → load o.qps a ≡ some qp
      → IsKeptPair qp out.1
      → IsObjects (with_qp o a out)
  kept-IsObjects a qp (ret, qp') live k =
      let p = v.pairs a qp live in
      with_qps _ (
        All-store (IsPair o.pd) o.qps a qp' v.pairs (record {
          low = rw k.same_number p.low;
          given = rw k.same_number p.given;
          named = rw k.same_number p.named;
          sq_ordered = k.sq_kept.ordered p.sq_ordered;
          rq_ordered = k.rq_kept.ordered p.rq_ordered;
          sq_owner = k.sq_kept.same_owner ∙ p.sq_owner;
          rq_owner = k.rq_kept.same_owner ∙ p.rq_owner;
        }))

pub worked_sq :
    (o : Objects) (a : ℕ) (qp : DisQp) (d : Drained)
    → IsObjects o
    → load o.qps a ≡ some qp
    → IsRun qp.sq.ibqp d
    → IsObjects (sq_worked o a qp d)
worked_sq o a qp d v live run =
    let p = v.pairs a qp live in
    let w =
      with_cqs o v _ (All-store (λ a cq. IsValid cq) o.cqs qp.sq.cq d.cq v.queues run.valid) in
    with_qps _ w _ (
      All-store (IsPair o.pd) o.qps a (record qp { sq = d.wq }) v.pairs
        (record {
          low = p.low;
          given = p.given;
          named = p.named;
          sq_ordered = run.ordered;
          rq_ordered = p.rq_ordered;
          sq_owner = run.same_owner ∙ p.sq_owner;
          rq_owner = p.rq_owner;
        }))

pub worked_rq :
    (o : Objects) (a : ℕ) (qp : DisQp) (d : Drained)
    → IsObjects o
    → load o.qps a ≡ some qp
    → IsRun qp.rq.ibqp d
    → IsObjects (rq_worked o a qp d)
worked_rq o a qp d v live run =
    let p = v.pairs a qp live in
    let w =
      with_cqs o v _ (All-store (λ a cq. IsValid cq) o.cqs qp.rq.cq d.cq v.queues run.valid) in
    with_qps _ w _ (
      All-store (IsPair o.pd) o.qps a (record qp { rq = d.wq }) v.pairs
        (record {
          low = p.low;
          given = p.given;
          named = p.named;
          sq_ordered = p.sq_ordered;
          rq_ordered = run.ordered;
          sq_owner = p.sq_owner;
          rq_owner = run.same_owner ∙ p.rq_owner;
        }))
