-- ===== src/Driver/Match.antt =====
-- Which devices a driver is bound to.
use dis_kverbs.Common.{
  ℕ, ◌≡◌, ◌↔◌, refl, arith, Bool, true, false, List, [], ◌∷◌, ◌==◌, length, take, if◌then◌else◌,
  Bool-cases, inl, inr, ap₂,
}
use dis_kverbs.Driver.{Strings, bus_match}

-- What the C library documents of strncmp and strlen.
pub record IsStrings (s : Strings) : Type 0 where
  pub strlen_lem : (a : List ℕ) → s.strlen a ≡ length a
  pub strncmp_lem : (a b : List ℕ) (n : ℕ) → (s.strncmp a b n ≡ 0) ↔ (take n a ≡ take n b)

-- Whether a string begins with another one.
unfoldable pub begins_with : List ℕ → List ℕ → Bool
begins_with a [] = true
begins_with [] (y ∷ b) = false
begins_with (x ∷ a) (y ∷ b) = let rest = begins_with a b in if x == y then rest else false

begins-take : (a b : List ℕ) → (begins_with a b ≡ true) ↔ (take (length b) a ≡ take (length b) b)
unfolding begins_with
begins-take a [] = ((λ e. refl), λ e. refl)
begins-take [] (y ∷ b) = ((λ e. cc), λ e. cc)
begins-take (x ∷ a) (y ∷ b) =
    let (there, back) = begins-take a b in
    elim (Bool-cases (x == y)) [
      | inl same ↦
          let e : x ≡ y = ground arith in rw same ((λ p. ap₂ ◌∷◌ e (there p)), λ p. back (cc p))
      | inr other ↦
          rw other ((λ p. absurd (cc p)), λ p. let e : x ≡ y = cc p in absurd (ground arith))
    ]

zero_test : (n : ℕ) (b : Bool) → (n ≡ 0 → b ≡ true) → (b ≡ true → n ≡ 0) → (n == 0) ≡ b
zero_test n true to of = let e = of refl in ground arith
zero_test n false to of = elim (Bool-cases (n == 0)) [
  | inl zero_n ↦ let e : n ≡ 0 = ground arith in absurd (cc (to e))
  | inr more ↦ more
]

-- A device matches a driver exactly where its name begins with the driver's: `bus_match` is
-- `begins_with`.
pub bus_match-eq-begins_with :
    (s : Strings) (dev drv : List ℕ) → IsStrings s → bus_match s dev drv ≡ begins_with dev drv
unfolding bus_match
bus_match-eq-begins_with s dev drv v =
    let (same, equal) = v.strncmp_lem dev drv (length drv) in
    let (there, back) = begins-take dev drv in
    rw (v.strlen_lem drv) (
      zero_test (s.strncmp dev drv (length drv)) (begins_with dev drv) (λ e. back (same e))
        (λ e. equal (there e)))
