-- ===== src/Memory/All.antt =====
-- What holds of every live object.
use dis_kverbs.Common.{
  ℕ, zero, suc, ◌≡◌, ◌⊎◌, inl, inr, refl, ap, none, some, [], ◌∷◌, ◌++◌, length, get_elem?, set,
  Returns,
}
use mathlib.Core.Option.{some-injective}
use dis_kverbs.Memory.{Heap, cell, load, fresh, alloc, free, store}

module _ {ℓ} {A : Type ℓ} where
  abbrev pub All {κ} : (ℕ → A → Type κ) → Heap A → Type (ℓ ⊔ κ)
  All P h = (a : ℕ) (x : A) → load h a ≡ some x → P a x

  pub All-empty {κ} : (P : ℕ → A → Type κ) → All P []
  All-empty P zero x e = cc
  All-empty P (suc a) x e = cc

  -- A cell that is live after one more was added is the new one or was live before.
  cell-snoc :
      (h : Heap A) (y : A) (a : ℕ) {x : A}
      → cell (get_elem? (h ++ some y ∷ []) a) ≡ some x
      → ((a ≡ length h) × (y ≡ x)) ⊎ (cell (get_elem? h a) ≡ some x)
  cell-snoc [] y zero e = inl (refl, some-injective _ _ e)
  cell-snoc [] y (suc a) e = cc
  cell-snoc (z ∷ h) y zero e = inr e
  cell-snoc (z ∷ h) y (suc a) e = elim (cell-snoc h y a e) [
    | inl (at, same) ↦ inl (ap suc at, same)
    | inr old ↦ inr old
  ]

  cell-set_written :
      (h : Heap A) (y : A) (b a : ℕ) {x : A}
      → cell (get_elem? (set h b (some y)) a) ≡ some x
      → ((a ≡ b) × (y ≡ x)) ⊎ (cell (get_elem? h a) ≡ some x)
  cell-set_written [] y b a e = inr e
  cell-set_written (z ∷ h) y zero zero e = inl (refl, some-injective _ _ e)
  cell-set_written (z ∷ h) y zero (suc a) e = inr e
  cell-set_written (z ∷ h) y (suc b) zero e = inr e
  cell-set_written (z ∷ h) y (suc b) (suc a) e = elim (cell-set_written h y b a e) [
    | inl (at, same) ↦ inl (ap suc at, same)
    | inr old ↦ inr old
  ]

  cell-set_freed :
      (h : Heap A) (b a : ℕ) {x : A}
      → cell (get_elem? (set h b none) a) ≡ some x
      → cell (get_elem? h a) ≡ some x
  cell-set_freed [] b a e = e
  cell-set_freed (z ∷ h) zero zero e = cc
  cell-set_freed (z ∷ h) zero (suc a) e = e
  cell-set_freed (z ∷ h) (suc b) zero e = e
  cell-set_freed (z ∷ h) (suc b) (suc a) e = cell-set_freed h b a e

  cell-set_live :
      (h : Heap A) (b : ℕ) (y : A) (a : ℕ)
      → Returns (cell (get_elem? h a))
      → Returns (cell (get_elem? (set h b (some y)) a))
  cell-set_live [] b y a live = live
  cell-set_live (z ∷ h) zero y zero live = (y, refl)
  cell-set_live (z ∷ h) zero y (suc a) live = live
  cell-set_live (z ∷ h) (suc b) y zero live = live
  cell-set_live (z ∷ h) (suc b) y (suc a) live = cell-set_live h b y a live

  -- What is live stays so where an object is written.
  pub store_live :
      (h : Heap A) (b : ℕ) (y : A) (a : ℕ) → Returns (load h a) → Returns (load (store h b y) a)
  store_live h zero y a live = live
  store_live h (suc b) y zero live = live
  store_live h (suc b) y (suc a) live = cell-set_live h b y a live

  module _ {κ} (P : ℕ → A → Type κ) where
    pub All-alloc : (h : Heap A) (y : A) → All P h → P (fresh h) y → All P (alloc h y)
    All-alloc h y old new zero x e = cc
    All-alloc h y old new (suc a) x e = elim (cell-snoc h y a e) [
      | inl (at, same) ↦ rw (at, ← same) new
      | inr before ↦ old (suc a) x before
    ]

    pub All-store : (h : Heap A) (b : ℕ) (y : A) → All P h → P b y → All P (store h b y)
    All-store h zero y old new a x e = old a x e
    All-store h (suc b) y old new zero x e = cc
    All-store h (suc b) y old new (suc a) x e = elim (cell-set_written h y b a e) [
      | inl (at, same) ↦ rw (at, ← same) new
      | inr before ↦ old (suc a) x before
    ]

    pub All-free : (h : Heap A) (b : ℕ) → All P h → All P (free h b)
    All-free h zero old a x e = old a x e
    All-free h (suc b) old zero x e = cc
    All-free h (suc b) old (suc a) x e = old (suc a) x (cell-set_freed h b a e)

  -- A stronger predicate.
  pub All-map {κ μ} :
      {P : ℕ → A → Type κ} {Q : ℕ → A → Type μ} (h : Heap A)
      → ((a : ℕ) (x : A) → P a x → Q a x)
      → All P h
      → All Q h
  All-map h step old a x e = step a x (old a x e)
