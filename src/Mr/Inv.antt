-- ===== src/Mr/Inv.antt =====
-- Keys: what the table of a protection domain holds, before and after a registration.
use dis_kverbs.Common.{
  ℕ, suc, ◌+◌, ◌≤◌, ◌<◌, ◌≡◌, refl, ap, ◌∙◌, length, get_elem?, length-set, get_elem?-set_self,
  get_elem?-set_ne, arith,
}
use dis_kverbs.Memory.{Heap, fresh, alloc, load-alloc_self, load-alloc}
use dis_kverbs.Pd.{DisPd}
use dis_kverbs.Verbs.{DisMr, dis_mr_max}
use dis_kverbs.Mr.{enter, keyed}
use dis_kverbs.Mr.Lookup.{lookup_mr, lookup_found, followed, entry_found}

-- The table has `dis_mr_max` entries, and no more keys were given out.
pub record IsPd (pd : DisPd) : Type 0 where
  pub table : length pd.mr_list ≡ dis_mr_max
  pub keys : pd.mr_c ≤ dis_mr_max

-- After a registration the new key names the new region, each key that was given out before names
-- the region that it named, and the table is in order.
pub record IsEntered (pd : DisPd) (mrs : Heap DisMr) (pd' : DisPd) (mrs' : Heap DisMr) (mr : DisMr)
    : Type 0 where
  pub key : mr.lkey ≡ pd.mr_c
  pub in_table : pd.mr_c < dis_mr_max
  pub named : lookup_mr mrs' pd' pd.mr_c ≡ lookup_found mr
  pub older :
      (k : ℕ) (r : DisMr)
      → k < pd.mr_c
      → lookup_mr mrs pd k ≡ lookup_found r
      → lookup_mr mrs' pd' k ≡ lookup_found r
  pub next_key : pd'.mr_c ≡ pd.mr_c + 1
  pub ordered : IsPd pd'

pub enter_lem :
    (pd : DisPd) (mrs : Heap DisMr) (mr : DisMr)
    → IsPd pd
    → pd.mr_c < dis_mr_max
    → IsEntered pd mrs (enter pd (fresh mrs)) (alloc mrs (keyed pd mr)) (keyed pd mr)
unfolding lookup_mr
enter_lem pd mrs mr v room = record {
  key = refl;
  in_table = room;
  named =
      rw (get_elem?-set_self pd.mr_list pd.mr_c (fresh mrs) (omega arith))
        (ap followed (load-alloc_self mrs (keyed pd mr)));
  older = λ k r lt found.
      let (a, at, live) = entry_found mrs (get_elem? pd.mr_list k) found in
      rw (get_elem?-set_ne pd.mr_list pd.mr_c k (fresh mrs) (omega arith), at)
        (ap followed (load-alloc mrs (keyed pd mr) (suc a) live));
  next_key = refl;
  ordered = record {
    table = length-set pd.mr_list pd.mr_c (fresh mrs) ∙ v.table;
    keys = omega arith;
  };
}
