-- ===== src/Driver/Tests.antt =====
-- A device of the driver's name, and the theorems at it.
use dis_kverbs.Common.{
  ℕ, ◌≡◌, refl, arith, true, false, List, [], ◌∷◌, ◌==◌, length, take, if◌then◌else◌, Bool-cases,
  subst, inl, inr, ap₂,
}
use dis_kverbs.Driver.{
  Strings, bus_match, dis_bus_init, dis_bus_exit, dis_device_init, dis_device_exit, dis_driver_init,
  dis_driver_exit, dis_driver_probe, dis_driver_remove,
}
use dis_kverbs.Driver.Balance.{IsUndone, registrations-IsUndone}
use dis_kverbs.Driver.Match.{IsStrings}

-- 0 where the strings are the same, and 1 elsewhere.
abbrev differ : List ℕ → List ℕ → ℕ
differ [] [] = 0
differ [] (y ∷ b) = 1
differ (x ∷ a) [] = 1
differ (x ∷ a) (y ∷ b) = let rest = differ a b in if x == y then rest else 1

same-differ : (a : List ℕ) → differ a a ≡ 0
same-differ [] = refl
same-differ (x ∷ a) = let e : (x == x) ≡ true = ground arith in rw e (same-differ a)

differ_lem : (a b : List ℕ) → differ a b ≡ 0 → a ≡ b
differ_lem [] [] e = refl
differ_lem [] (y ∷ b) e = absurd (omega (arith, e))
differ_lem (x ∷ a) [] e = absurd (omega (arith, e))
differ_lem (x ∷ a) (y ∷ b) e = elim (Bool-cases (x == y)) [
  | inl same ↦ let k : x ≡ y = ground arith in ap₂ ◌∷◌ k (differ_lem a b (rw same at e))
  | inr other ↦ let k : ◌≡◌ {A = ℕ} 1 0 = rw other at e in absurd (omega (arith, k))
]

abbrev strings : Strings
strings = record { strncmp = λ a b n. differ (take n a) (take n b); strlen = length }

strings-IsStrings : IsStrings strings
strings-IsStrings = record {
  strlen_lem = λ a. refl;
  strncmp_lem = λ a b n. (
    differ_lem (take n a) (take n b),
    λ e. subst (λ l. differ (take n a) l ≡ 0) e (same-differ (take n a)),
  );
}

-- "dis" matches "dis-", and not the other way round.
match_tests :
    (bus_match strings (100 ∷ 105 ∷ 115 ∷ 45 ∷ []) (100 ∷ 105 ∷ 115 ∷ []) ≡ true)
    × (bus_match strings (100 ∷ 105 ∷ 115 ∷ []) (100 ∷ 105 ∷ 115 ∷ 45 ∷ []) ≡ false)
unfolding bus_match
match_tests = (refl, refl)

registrations-IsUndone_example :
    let (bus_ret, bus) = dis_bus_init true false in
    let (dev_ret, device) = dis_device_init true in
    let (drv_ret, driver) = dis_driver_init true in
    let (probe_ret, d, probe) = dis_driver_probe 64 false 7 in
    IsUndone bus_ret bus dis_bus_exit
    × IsUndone dev_ret device dis_device_exit
    × IsUndone drv_ret driver dis_driver_exit
    × IsUndone probe_ret probe (dis_driver_remove d).1
registrations-IsUndone_example = registrations-IsUndone true false true true false 64 7
