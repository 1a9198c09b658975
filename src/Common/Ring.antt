-- ===== src/Common/Ring.antt =====
-- The contents of a circular buffer: the slots from the tail up to the head, oldest first.
use Prim.Native.Nat.{ℕ, suc, ◌+◌, ◌-◌, ◌%◌, ◌<◌}
use mathlib.Core.Path.{◌≡◌, refl, sym, ap, ap₂, ◌∙◌}
use mathlib.Core.List.{List, [], ◌∷◌, ◌++◌}
use native.Mathlib.Nat.{mod-eq_of_lt, mod-add-mod, add-zero}
use native.Mathlib.Omega.{arith}
use native.Mathlib.Numerals.{add-one}
use dis_kverbs.Common.Lists.{length, get_or, set, get_or-set_self, get_or-set_ne}
use dis_kverbs.Common.Tabulate.{tabulate, length-tabulate, tabulate_congr, tabulate_snoc}
use dis_kverbs.Common.Mask.{
  used-lt, head_position, used_after_push, used_after_pop, position-ne, mod_cases,
}

-- The number of slots from the tail `t` up to the head `h`.
abbrev pub ring_used : ℕ → ℕ → ℕ → ℕ
ring_used s h t = (h + s - t) % s

module _ {ℓ} {A : Type ℓ} where
  abbrev pub ring_slot : A → List A → ℕ → ℕ → ℕ → A
  ring_slot d buf s t i = get_or buf ((t + i) % s) d

  abbrev pub ring_contents : A → List A → ℕ → ℕ → ℕ → List A
  ring_contents d buf s h t = tabulate (ring_slot d buf s t) (ring_used s h t)

  pub length-ring_contents :
      (d : A) (buf : List A) (s h t : ℕ) → length (ring_contents d buf s h t) ≡ ring_used s h t
  length-ring_contents d buf s h t = length-tabulate (ring_slot d buf s t) (ring_used s h t)

  pub ring_contents_empty :
      (d : A) (buf : List A) (s h t : ℕ) → ring_used s h t ≡ 0 → ring_contents d buf s h t ≡ []
  ring_contents_empty d buf s h t e = ap (tabulate (ring_slot d buf s t)) e

  module _ (d : A) (buf : List A) (s h t : ℕ) (hh : h < s) (ht : t < s) where
    -- The slot at the head is not one of the contents.
    pub ring_contents-set_head :
        (v : A) → ring_contents d (set buf h v) s h t ≡ ring_contents d buf s h t
    ring_contents-set_head v = tabulate_congr _ _ (ring_used s h t) (λ i lt.
        get_or-set_ne buf h ((t + i) % s) v d (λ e.
          position-ne s t i (ring_used s h t) ht lt (used-lt s h t hh ht)
            (sym (head_position s h t hh ht ∙ e))))

    pub ring_contents_push :
        (v : A)
        → length buf ≡ s
        → ring_used s h t + 1 < s
        → ring_contents d (set buf h v) s ((h + 1) % s) t ≡ ring_contents d buf s h t ++ v ∷ []
    ring_contents_push v slots room =
        rw (used_after_push s h t hh ht room, add-one, tabulate_snoc)
          (ap₂ (λ xs x. xs ++ x ∷ []) (ring_contents-set_head v) new)
      where
        new : ring_slot d (set buf h v) s t (ring_used s h t) ≡ v
        new = rw (head_position s h t hh ht) (get_or-set_self buf h v d (omega arith))

    pub ring_contents_pop :
        0 < ring_used s h t
        → ring_contents d buf s h t ≡ get_or buf t d ∷ ring_contents d buf s h ((t + 1) % s)
    ring_contents_pop some_used =
        rw (sym (used_after_pop s h t hh ht some_used), add-one)
          (ap₂ ◌∷◌ (rw (add-zero, mod-eq_of_lt ht) refl)
            (tabulate_congr _ _ (ring_used s h ((t + 1) % s)) (λ i _. rw mod-add-mod (shift i))))
      where
        shift : (i : ℕ) → ring_slot d buf s t (suc i) ≡ get_or buf ((t + 1 + i) % s) d
        shift i = ap (λ (k : ℕ). get_or buf (k % s) d) (omega arith)

    -- The slot at the tail is not one of the contents from behind the tail on.
    pub ring_contents-set_tail :
        (v : A)
        → 0 < ring_used s h t
        → ring_contents d (set buf t v) s h ((t + 1) % s) ≡ ring_contents d buf s h ((t + 1) % s)
    ring_contents-set_tail v some_used = tabulate_congr _ _ (ring_used s h ((t + 1) % s)) (λ i lt.
        get_or-set_ne buf t (((t + 1) % s + i) % s) v d (λ e.
          position-ne s ((t + 1) % s) i (s - 1) (omega arith)
            (omega (arith, lt, used_after_pop s h t hh ht some_used, used-lt s h t hh ht))
            (omega arith) (sym (back ∙ e))))
      where
        back : ((t + 1) % s + (s - 1)) % s ≡ t
        back = ground (arith, mod_cases (t + 1) s, mod_cases ((t + 1) % s + (s - 1)) s)
