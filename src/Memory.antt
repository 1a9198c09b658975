-- ===== src/Memory.antt =====
-- Memory of the kernel's allocator, for objects of one type: the object at address `a` is the
-- element `a - 1`, so that 0 is NULL, and a freed object leaves `none` behind.
pub mod All
use dis_kverbs.Common.{
  ℕ, zero, suc, ◌≡◌, refl, Option, none, some, List, [], ◌∷◌, ◌++◌, length, get_elem?, set, ap,
}

abbrev pub Heap {ℓ} : Type ℓ → Type ℓ
Heap A = List (Option A)

module _ {ℓ} {A : Type ℓ} where
  abbrev pub cell : Option (Option A) → Option A
  cell none = none
  cell (some o) = o

  -- `none` for NULL, for a freed object, and for an address that was never handed out.
  abbrev pub load : Heap A → ℕ → Option A
  load h zero = none
  load h (suc a) = cell (get_elem? h a)

  -- A new object, at an address that was never used.
  abbrev pub fresh : Heap A → ℕ
  fresh h = suc (length h)

  abbrev pub alloc : Heap A → A → Heap A
  alloc h x = h ++ some x ∷ []

  abbrev pub free : Heap A → ℕ → Heap A
  free h zero = h
  free h (suc a) = set h a none

  -- A write to an object that is there.
  abbrev pub store : Heap A → ℕ → A → Heap A
  store h zero x = h
  store h (suc a) x = set h a (some x)

  get_elem?-snoc : (h : Heap A) (o : Option A) → get_elem? (h ++ o ∷ []) (length h) ≡ some o
  get_elem?-snoc [] o = refl
  get_elem?-snoc (x ∷ h) o = get_elem?-snoc h o

  get_elem?-append :
      (h : Heap A) (o : Option A) (a : ℕ) {x : A}
      → cell (get_elem? h a) ≡ some x
      → cell (get_elem? (h ++ o ∷ []) a) ≡ some x
  get_elem?-append [] o a e = cc
  get_elem?-append (y ∷ h) o zero e = e
  get_elem?-append (y ∷ h) o (suc a) e = get_elem?-append h o a e

  pub load-alloc_self : (h : Heap A) (x : A) → load (alloc h x) (fresh h) ≡ some x
  load-alloc_self h x = ap cell (get_elem?-snoc h (some x))

  -- Allocation leaves every live object as it is.
  pub load-alloc :
      (h : Heap A) (x : A) (a : ℕ) {y : A} → load h a ≡ some y → load (alloc h x) a ≡ some y
  load-alloc h x zero e = cc
  load-alloc h x (suc a) e = get_elem?-append h (some x) a e

  cell-set-none : (h : Heap A) (a : ℕ) → cell (get_elem? (set h a none) a) ≡ none
  cell-set-none [] a = refl
  cell-set-none (x ∷ h) zero = refl
  cell-set-none (x ∷ h) (suc a) = cell-set-none h a

  pub load-free_self : (h : Heap A) (a : ℕ) → load (free h a) a ≡ none
  load-free_self h zero = refl
  load-free_self h (suc a) = cell-set-none h a
