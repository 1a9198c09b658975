-- ===== src/Mr/Lookup.antt =====
-- How posting a work request finds the region of a key, in driver/dis_qp.c.
use dis_kverbs.Common.{
  ℕ, zero, suc, ◌≤◌, Option, none, some, length, get_elem?, get_elem?-beyond, ◌≡◌, ◌⊎◌, inl, inr,
  refl, ap, ◌∙◌, arith,
}
use dis_kverbs.Memory.{Heap, load}
use dis_kverbs.Pd.{DisPd}
use dis_kverbs.Verbs.{DisMr}

-- `pd->mr_list[ibsge->lkey]`, read and followed.
pub data Lookup : Type 0 where
  lookup_fault lookup_null : Lookup
  lookup_found : DisMr → Lookup

abbrev pub followed : Option DisMr → Lookup
followed none = lookup_fault
followed (some mr) = lookup_found mr

abbrev pub entry : Heap DisMr → Option ℕ → Lookup
entry mrs none = lookup_fault
entry mrs (some zero) = lookup_null
entry mrs (some (suc a)) = followed (load mrs (suc a))

unfoldable pub lookup_mr : Heap DisMr → DisPd → ℕ → Lookup
lookup_mr mrs pd lkey = entry mrs (get_elem? pd.mr_list lkey)

-- The key lies outside the table, or the table holds the address of a region that was freed.
abbrev pub IsBadKey : Heap DisMr → DisPd → ℕ → Type 0
IsBadKey mrs pd lkey =
    (length pd.mr_list ≤ lkey)
    ⊎ ((a : ℕ) × (get_elem? pd.mr_list lkey ≡ some (suc a)) × (load mrs (suc a) ≡ none))

pub lookup_mr-bad :
    (mrs : Heap DisMr) (pd : DisPd) (lkey : ℕ)
    → IsBadKey mrs pd lkey
    → lookup_mr mrs pd lkey ≡ lookup_fault
unfolding lookup_mr
lookup_mr-bad mrs pd lkey (inl beyond) = ap (entry mrs) (get_elem?-beyond pd.mr_list lkey beyond)
lookup_mr-bad mrs pd lkey (inr (a, entered, freed)) = ap (entry mrs) entered ∙ ap followed freed

followed_found : (o : Option DisMr) {r : DisMr} → followed o ≡ lookup_found r → o ≡ some r
followed_found none e = cc
followed_found (some x) e = ground arith

-- A key that names a region names it through a pointer that is not NULL.
pub entry_found :
    (mrs : Heap DisMr) (o : Option ℕ) {r : DisMr}
    → entry mrs o ≡ lookup_found r
    → (a : ℕ) × (o ≡ some (suc a)) × (load mrs (suc a) ≡ some r)
entry_found mrs none e = cc
entry_found mrs (some zero) e = cc
entry_found mrs (some (suc a)) e = (a, refl, followed_found (load mrs (suc a)) e)
