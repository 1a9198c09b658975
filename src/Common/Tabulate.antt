-- ===== src/Common/Tabulate.antt =====
-- Lists given by their elements: how the contents of a circular buffer and the bytes of a memory
-- segment are stated.
use Prim.Native.Nat.{ℕ, zero, suc, ◌+◌, ◌<◌}
use mathlib.Core.Path.{◌≡◌, refl, ap, ap₂, ◌∙◌}
use mathlib.Core.List.{List, [], ◌∷◌, ◌++◌}
use native.Mathlib.Omega.{arith}
use native.Mathlib.Nat.{zero-add, suc-add}
use dis_kverbs.Common.Lists.{length}

module _ {ℓ} {A : Type ℓ} where
  -- f 0, f 1, …, f (n - 1)
  abbrev pub tabulate : (ℕ → A) → ℕ → List A
  tabulate f zero = []
  tabulate f (suc n) = f 0 ∷ tabulate (λ i. f (suc i)) n

  pub length-tabulate : (f : ℕ → A) (n : ℕ) → length (tabulate f n) ≡ n
  length-tabulate f zero = refl
  length-tabulate f (suc n) = ap suc (length-tabulate (λ i. f (suc i)) n)

  pub tabulate_congr :
      (f g : ℕ → A) (n : ℕ) → ((i : ℕ) → i < n → f i ≡ g i) → tabulate f n ≡ tabulate g n
  tabulate_congr f g zero h = refl
  tabulate_congr f g (suc n) h =
      ap₂ ◌∷◌ (h 0 (omega arith))
        (tabulate_congr (λ i. f (suc i)) (λ i. g (suc i)) n (λ i lt. h (suc i) (omega arith)))

  pub tabulate_snoc : (f : ℕ → A) (n : ℕ) → tabulate f (suc n) ≡ tabulate f n ++ f n ∷ []
  tabulate_snoc f zero = refl
  tabulate_snoc f (suc n) = ap (λ t. f 0 ∷ t) (tabulate_snoc (λ i. f (suc i)) n)

  pub tabulate_split :
      (f : ℕ → A) (m n : ℕ) → tabulate f (m + n) ≡ tabulate f m ++ tabulate (λ i. f (m + i)) n
  tabulate_split f zero n = rw zero-add (tabulate_congr f (λ i. f (0 + i)) n (λ i _. rw zero-add))
  tabulate_split f (suc m) n = rw suc-add (
      ap (λ t. f 0 ∷ t) (tabulate_split (λ i. f (suc i)) m n)
      ∙ ap (λ t. f 0 ∷ tabulate (λ i. f (suc i)) m ++ t)
          (tabulate_congr (λ i. f (suc (m + i))) (λ i. f (suc m + i)) n (λ i _. rw suc-add)))
