-- ===== src/Mr/Tests.antt =====
-- Runs of the memory verbs, and the theorems at concrete domains.
use dis_kverbs.Common.{
  ℕ, zero, suc, ◌≡◌, ◌<◌, refl, arith, true, Option, some, List, [], ◌∷◌, replicate, get_or,
}
use dis_kverbs.Events.{Event, acquire, release}
use dis_kverbs.Memory.{Heap}
use dis_kverbs.Pd.{DisPd, dis_alloc_pd}
use dis_kverbs.Verbs.{Ret, done, DisMr}
use dis_kverbs.Mr.{
  einval, MrOut, RegEnv, Umem, Resource, pinned, mr_memory, pages_memory, dis_reg_user_mr,
  dis_dereg_mr, zero_mr, reg_umem, reg_stored, store_pages,
}
use dis_kverbs.Mr.Lookup.{lookup_mr, lookup_found, lookup_fault}
use dis_kverbs.Mr.Inv.{IsPd}
use dis_kverbs.Mr.Leaks.{Settled, dis_reg_user_mr-Settled}
use dis_kverbs.Mr.Lifetime.{IsUmem, dereg_dangles}

abbrev domain : DisPd
domain =
    (dis_alloc_pd
      (record { dev = 0; qp_list = replicate 200 0; mr_list = replicate 100 0; qp_c = 0; mr_c = 0 })
      9).1

abbrev full_domain : DisPd
full_domain = record domain { mr_c = 100 }

abbrev used_domain : DisPd
used_domain = record domain { mr_list = 1 ∷ replicate 99 0; mr_c = 1 }

-- 5000 bytes from offset 100 of the first page.
abbrev pub two_pages : Umem
two_pages = record {
  umem = 77;
  umem_page_count = 2;
  umem_offset = 100;
  addresses = 0x10000 ∷ 0x30000 ∷ [];
}

abbrev answers : RegEnv
answers = record { mr_alloc = true; umem_get = some two_pages; pages_alloc = true }

-- The second page has no address.
abbrev bad_answers : RegEnv
bad_answers = record answers { umem_get = some (record two_pages { addresses = 1 ∷ 0 ∷ [] }) }

domain-IsPd : IsPd domain
unfolding dis_alloc_pd
domain-IsPd = record { table = refl; keys = omega arith }

not_null : (i : ℕ) → i < 2 → 0 < get_or (0x10000 ∷ 0x30000 ∷ []) i 0
not_null zero lt = omega arith
not_null (suc zero) lt = omega arith
not_null (suc (suc i)) lt = absurd (omega arith)

pub two_pages-IsUmem : IsUmem two_pages 5000
two_pages-IsUmem = record {
  some_pages = omega arith;
  few_pages = omega arith;
  one_address_each = refl;
  offset_in = omega arith;
  holds_bytes = omega arith;
  not_null = not_null;
}

failing_registration : Option MrOut
failing_registration = dis_reg_user_mr domain [] 5000 0x7000 bad_answers

dis_reg_user_mr-Settled_example : Settled domain [] (record {
  result = einval;
  pd = domain;
  mrs = [];
  events =
      acquire mr_memory
      ∷ acquire (pinned 77)
      ∷ acquire pages_memory
      ∷ release pages_memory
      ∷ release (pinned 77)
      ∷ release mr_memory
      ∷ [];
})
unfolding dis_reg_user_mr reg_umem reg_stored store_pages dis_alloc_pd
dis_reg_user_mr-Settled_example = dis_reg_user_mr-Settled domain [] 5000 0x7000 bad_answers _ refl

dereg_dangles_example :
    (out : Ret × Heap DisMr × List (Event Resource)) × (dis_dereg_mr (some zero_mr ∷ []) 1
      ≡ some out)
    × (out.0 ≡ done)
    × (lookup_mr (some zero_mr ∷ []) used_domain 0 ≡ lookup_found zero_mr)
    × (lookup_mr out.1 used_domain 0 ≡ lookup_fault)
dereg_dangles_example = dereg_dangles used_domain (some zero_mr ∷ []) 0 0 zero_mr refl refl
