-- ===== src/Calls/Inv.antt =====
-- The invariant of the objects of a domain.
use dis_kverbs.Common.{
  ℕ, ◌+◌, ◌≤◌, ◌<◌, ◌≡◌, ap, sym, ◌∙◌, arith, some, length, get_elem?, set, get_elem?-set_self,
  get_elem?-set_ne,
}
use mathlib.Core.Option.{some-injective}
use dis_kverbs.Memory.{Heap, load, fresh, alloc}
use dis_kverbs.Memory.All.{All, All-alloc, All-map}
use dis_kverbs.Pd.{DisPd}
use dis_kverbs.Verbs.{DisMr, dis_qp_ini, dis_qp_max, dis_mr_max}
use dis_kverbs.Mr.{enter, keyed}
use dis_kverbs.Mr.Inv.{IsPd}
use dis_kverbs.Cq.Inv.{IsValid}
use dis_kverbs.Qp.{DisQp}
use dis_kverbs.Post.Build.{IsWq}
use dis_kverbs.Calls.{Objects}

-- The table of keys names the region under its own key.
abbrev pub IsKeyed : DisPd → ℕ → DisMr → Type 0
IsKeyed pd a mr = (mr.lkey < pd.mr_c) × (get_elem? pd.mr_list mr.lkey ≡ some a)

-- The table of numbers names the pair under its own number, and both queues are in order, each slot's own
-- array with four elements, and name it.
pub record IsPair (pd : DisPd) (a : ℕ) (qp : DisQp) : Type 0 where
  pub low : dis_qp_ini ≤ qp.qp_num
  pub given : qp.qp_num < pd.qp_c
  pub named : get_elem? pd.qp_list qp.qp_num ≡ some a
  pub sq_ordered : IsWq qp.sq
  pub rq_ordered : IsWq qp.rq
  pub sq_owner : qp.sq.ibqp ≡ a
  pub rq_owner : qp.rq.ibqp ≡ a

pub record IsObjects (o : Objects) : Type 0 where
  pub keys : IsPd o.pd
  pub numbers : length o.pd.qp_list ≡ dis_qp_max
  pub from : dis_qp_ini ≤ o.pd.qp_c
  pub upto : o.pd.qp_c ≤ dis_qp_max
  pub regions : All (IsKeyed o.pd) o.mrs
  pub queues : All (λ a cq. IsValid cq) o.cqs
  pub pairs : All (IsPair o.pd) o.qps

-- Live regions have keys of their own, and live pairs numbers of their own.
pub keys_apart :
    {o : Objects} (a b : ℕ) (x y : DisMr)
    → IsObjects o
    → load o.mrs a ≡ some x
    → load o.mrs b ≡ some y
    → x.lkey ≡ y.lkey
    → a ≡ b
keys_apart {o} a b x y v live live' same =
    some-injective _ _ (
      sym (v.regions a x live).1
      ∙ ap (λ k. get_elem? o.pd.mr_list k) same
      ∙ (v.regions b y live').1)

pub numbers_apart :
    {o : Objects} (a b : ℕ) (x y : DisQp)
    → IsObjects o
    → load o.qps a ≡ some x
    → load o.qps b ≡ some y
    → x.qp_num ≡ y.qp_num
    → a ≡ b
numbers_apart {o} a b x y v live live' same = some-injective _ _ (
    sym (v.pairs a x live).named
    ∙ ap (λ k. get_elem? o.pd.qp_list k) same
    ∙ (v.pairs b y live').named)

-- A region is entered under the next key.
pub entered :
    (pd : DisPd) (mrs : Heap DisMr) (mr : DisMr)
    → IsPd pd
    → pd.mr_c < dis_mr_max
    → All (IsKeyed pd) mrs
    → All (IsKeyed (enter pd (fresh mrs))) (alloc mrs (keyed pd mr))
entered pd mrs mr v room old =
    All-alloc (IsKeyed (enter pd (fresh mrs))) mrs (keyed pd mr)
      (All-map {Q = IsKeyed (enter pd (fresh mrs))} mrs
        (λ a x (given, named). (
          omega (arith, given),
          get_elem?-set_ne pd.mr_list pd.mr_c x.lkey (fresh mrs) (omega (arith, given)) ∙ named,
        ))
        old)
      (omega arith, get_elem?-set_self pd.mr_list pd.mr_c (fresh mrs) (omega (arith, v.table)))

-- A pair is entered under the next number.
pub numbered :
    (pd : DisPd) (qps : Heap DisQp) (qp : DisQp)
    → length pd.qp_list ≡ dis_qp_max
    → pd.qp_c < dis_qp_max
    → let pd' = record pd { qp_list = set pd.qp_list pd.qp_c (fresh qps); qp_c = pd.qp_c + 1 } in
      IsPair pd' (fresh qps) qp → All (IsPair pd) qps → All (IsPair pd') (alloc qps qp)
numbered pd qps qp table room new old =
    let pd' : DisPd = record pd {
      qp_list = set pd.qp_list pd.qp_c (fresh qps);
      qp_c = pd.qp_c + 1;
    } in
    All-alloc (IsPair pd') qps qp
      (All-map {Q = IsPair pd'} qps
        (λ a x p. record {
          low = p.low;
          given = omega (arith, p.given);
          named =
              get_elem?-set_ne pd.qp_list pd.qp_c x.qp_num (fresh qps) (omega (arith, p.given))
              ∙ p.named;
          sq_ordered = p.sq_ordered;
          rq_ordered = p.rq_ordered;
          sq_owner = p.sq_owner;
          rq_owner = p.rq_owner;
        })
        old)
      new
