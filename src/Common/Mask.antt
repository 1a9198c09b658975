-- ===== src/Common/Mask.antt =====
-- `x & (size - 1)` for a power of two, and positions in a buffer whose indices go round.
use Prim.Native.Nat.{
  ℕ, zero, suc, ◌+◌, ◌-◌, ◌*◌, ◌/◌, ◌%◌, ◌^◌, ◌≤◌, ◌<◌, min, bit_and, digits, bit_and-bitwise,
}
use mathlib.Core.Path.{◌≡◌, sym, ap, ◌∙◌, ◌≡⟨◌⟩◌, ◌∎}
use mathlib.Core.Logic.{◌≢◌, ◌⊎◌, inl, inr}
use native.Mathlib.Nat.{
  pow-suc, one-le-pow, pow-le-pow_right, mod-eq_of_lt, mod_self, mod-eq-sub-mod, mod-lt, zero-mod,
  div-add-mod, mul-add-mod_self_left,
}
use native.Mathlib.Decide.{dec_lt}
use native.Mathlib.Omega.{arith}

abbrev and_digits : ℕ → ℕ → ℕ → ℕ
and_digits n a m = digits (λ b. zero) min n a m

mod-two-pow-suc : (k a : ℕ) → a % 2 ^ suc k ≡ a / 2 % 2 ^ k * 2 + a % 2
mod-two-pow-suc k a =
    a % 2 ^ suc k
    ≡⟨ ap (λ (t : ℕ). a % t) width ⟩ a % (2 ^ k * 2)
    ≡⟨ ap (λ (t : ℕ). t % (2 ^ k * 2)) split ⟩ (2 ^ k * 2 * q + (r * 2 + a % 2)) % (2 ^ k * 2)
    ≡⟨ mul-add-mod_self_left (2 ^ k * 2) q (r * 2 + a % 2) ⟩ (r * 2 + a % 2) % (2 ^ k * 2)
    ≡⟨ mod-eq_of_lt (omega (arith, mod-lt (a / 2) {m = 2 ^ k} (one-le-pow k 2 (omega arith)))) ⟩
      r * 2 + a % 2 ∎
  where
    q : ℕ
    q = a / 2 / 2 ^ k

    r : ℕ
    r = a / 2 % 2 ^ k

    width : 2 ^ suc k ≡ 2 ^ k * 2
    width = pow-suc 2 k

    split : a ≡ 2 ^ k * 2 * q + (r * 2 + a % 2)
    split = omega (arith, div-add-mod (a / 2) (2 ^ k))

-- With enough digits, `&` with k ones is the remainder by 2 ^ k.
and_digits_mask : (n k a : ℕ) → a ≤ n → and_digits n a (2 ^ k - 1) ≡ a % 2 ^ k
and_digits_mask zero k zero h = sym (zero-mod (2 ^ k))
and_digits_mask zero k (suc a) h = absurd (omega arith)
and_digits_mask (suc n) k zero h = sym (zero-mod (2 ^ k))
and_digits_mask (suc n) zero (suc a) h =
    omega (arith, and_digits_mask n 0 (suc a / 2) (omega arith))
and_digits_mask (suc n) (suc k) (suc a) h =
    rw (half, odd)
      (omega (arith, and_digits_mask n k (suc a / 2) (omega arith), mod-two-pow-suc k (suc a)))
  where
    half : (2 ^ suc k - 1) / 2 ≡ 2 ^ k - 1
    half = omega (arith, pow-suc 2 k)

    odd : (2 ^ suc k - 1) % 2 ≡ 1
    odd = omega (arith, pow-suc 2 k, one-le-pow k 2 (omega arith))

pub bit_and_mask : (k a : ℕ) → bit_and a (2 ^ k - 1) ≡ a % 2 ^ k
bit_and_mask k a = bit_and-bitwise a (2 ^ k - 1) ∙ and_digits_mask a k a (omega arith)

-- Below twice the size a remainder takes off the size at most once.
pub mod_cases : (x s : ℕ) → x < s + s → ((x % s ≡ x) × (x < s)) ⊎ ((x % s + s ≡ x) × (s ≤ x))
mod_cases x s h = elim (dec_lt x s) [
  | yes lt ↦ inl (mod-eq_of_lt lt, lt)
  | no ge ↦ inr (
    omega (
      arith,
      mod-eq-sub-mod {n = x} {m = s} (omega arith),
      mod-eq_of_lt {n = x - s} {m = s} (omega arith),
    ),
    omega arith,
  )
]

-- Positions in a buffer of `s` slots written at `h` and read at `t`.
module _ (s h t : ℕ) (hh : h < s) (ht : t < s) where
  pub used-lt : (h + s - t) % s < s
  used-lt = omega arith

  -- The free slots, but for the one that stays empty.
  pub used-add-free : (h + s - t) % s + (t + s - (h + 1)) % s + 1 ≡ s
  used-add-free = ground (arith, mod_cases (h + s - t) s, mod_cases (t + s - (h + 1)) s)

  pub head_position : (t + (h + s - t) % s) % s ≡ h
  head_position = ground (arith, mod_cases (h + s - t) s, mod_cases (t + (h + s - t) % s) s)

  pub used_after_push : (h + s - t) % s + 1 < s → ((h + 1) % s + s - t) % s ≡ (h + s - t) % s + 1
  used_after_push room =
      ground
        (arith, mod_cases (h + s - t) s, mod_cases (h + 1) s, mod_cases ((h + 1) % s + s - t) s)

  pub used_after_pop : 0 < (h + s - t) % s → (h + s - (t + 1) % s) % s + 1 ≡ (h + s - t) % s
  used_after_pop some_used =
      ground
        (arith, mod_cases (h + s - t) s, mod_cases (t + 1) s, mod_cases (h + s - (t + 1) % s) s)

-- Fewer than `s` steps round the buffer do not come back.
pub position-ne : (s t i j : ℕ) → t < s → i < j → j < s → (t + i) % s ≢ (t + j) % s
position-ne s t i j ht lt hj e = ground (arith, mod_cases (t + i) s, mod_cases (t + j) s)

-- A power of two below `2 ^ (b + 1)` is at most `2 ^ b`.
pub pow-le_of_lt : (l b : ℕ) → 2 ^ l < 2 ^ suc b → 2 ^ l ≤ 2 ^ b
pow-le_of_lt l b h = elim (dec_lt l (suc b)) [
  | yes lt ↦ pow-le-pow_right {n = 2} (omega arith) (omega arith)
  | no ge ↦
      absurd
        (omega (arith, pow-le-pow_right {n = 2} (omega arith) {i = suc b} {j = l} (omega arith)))
]

pub used_self : (s i : ℕ) → (i + s - i) % s ≡ 0
used_self s i = ap (λ (x : ℕ). x % s) (width) ∙ mod_self s
  where
    width : i + s - i ≡ s
    width = omega arith
