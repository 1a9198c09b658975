-- ===== src/Kernel/Concrete.antt =====
-- Functions that meet the laws of the kernel's macros, for evaluating the model.
use dis_kverbs.Common.{
  ℕ, zero, suc, ◌+◌, ◌-◌, ◌*◌, ◌%◌, ◌^◌, ◌≤◌, ◌<◌, ◌≡◌, arith, subst, leb, true, false, Bool-cases,
  inl, inr, refl,
}
use dis_kverbs.Kernel.{CircBuf, RoundUp}
use native.Mathlib.Nat.{pow-suc, zero-add}

abbrev pub plain_circ : CircBuf
plain_circ = record {
  circ_cnt = λ h t s. (h + s - t) % s;
  circ_space = λ h t s. (t + s - (h + 1)) % s;
  circ_cnt_lem = λ k h t hh ht. refl;
  circ_space_lem = λ k h t hh ht. refl;
}

-- The least exponent from `k` on whose power reaches `n`.
unfoldable pub log_from : ℕ → ℕ → ℕ → ℕ
log_from zero k n = k
log_from (suc fuel) k n = elim (leb n (2 ^ k)) [ true ↦ k | false ↦ log_from fuel (suc k) n ]

log_from_lem :
    (fuel k n : ℕ)
    → n ≤ 2 ^ (fuel + k)
    → 2 ^ k < 2 * n
    → (n ≤ 2 ^ log_from fuel k n) × (2 ^ log_from fuel k n < 2 * n)
unfolding log_from
log_from_lem zero k n h l = (rw (zero-add) at h, l)
log_from_lem (suc fuel) k n h l = elim (Bool-cases (leb n (2 ^ k))) [
  | inl reached ↦ rw (reached, log_from) (ground arith, l)
  | inr below ↦
      rw (below, log_from)
        (log_from_lem fuel (suc k) n (subst (λ e. n ≤ 2 ^ e) shift h) (ground (arith, pow-suc 2 k)))
]
  where
    shift : suc fuel + k ≡ fuel + suc k
    shift = omega arith

pub round_lem :
    (n : ℕ)
    → 0 < n
    → n ≤ 2 ^ 31
    → (2 ^ log_from 31 0 n ≡ 2 ^ log_from 31 0 n)
      × (n ≤ 2 ^ log_from 31 0 n)
      × (2 ^ log_from 31 0 n < 2 * n)
round_lem n pos small =
    let bounds = log_from_lem 31 0 n small (omega arith) in (refl, bounds.0, bounds.1)

abbrev pub plain_round : RoundUp
plain_round = record {
  roundup_pow_of_two = λ n. 2 ^ log_from 31 0 n;
  log = log_from 31 0;
  roundup_lem = round_lem;
}
