-- ===== src/Events.antt =====
-- What code acquires and releases, in the order in which it does.
use dis_kverbs.Common.{
  Bool, true, arith, ◌≡◌, ◌++◌, Option, none, some, List, [], ◌∷◌, if◌then◌else◌,
}

pub data Event {ℓ} (A : Type ℓ) : Type ℓ where
  acquire : A → Event A
  release : A → Event A

-- The resources still held after the events, the latest first; a resource must be released before
-- those that were acquired earlier. `none` is a release of what is not the latest.
unfoldable pub replay {ℓ} :
    {A : Type ℓ} → (A → A → Bool) → List A → List (Event A) → Option (List A)
replay same held [] = some held
replay same held (acquire r ∷ es) = replay same (r ∷ held) es
replay same [] (release r ∷ es) = none
replay same (h ∷ held) (release r ∷ es) =
    let rest = replay same held es in if same h r then rest else none

module _ {ℓ} {A : Type ℓ} (same : A → A → Bool) where
  -- One more event after those that leave `left` held.
  pub replay-acquire :
      (held : List A) (es : List (Event A)) (r : A) {left : List A}
      → replay same held es ≡ some left
      → replay same held (es ++ acquire r ∷ []) ≡ some (r ∷ left)
  unfolding replay
  replay-acquire held [] r e = ground arith
  replay-acquire held (acquire q ∷ es) r e = replay-acquire (q ∷ held) es r e
  replay-acquire [] (release q ∷ es) r e = cc
  replay-acquire (h ∷ held) (release q ∷ es) r {left} e =
      ground (arith, replay-acquire held es r {left = left})

  pub replay-release :
      (held : List A) (es : List (Event A)) (r : A) {left : List A}
      → replay same held es ≡ some (r ∷ left)
      → same r r ≡ true
      → replay same held (es ++ release r ∷ []) ≡ some left
  unfolding replay
  replay-release held [] r e s = ground arith
  replay-release held (acquire q ∷ es) r e s = replay-release (q ∷ held) es r e s
  replay-release [] (release q ∷ es) r e s = cc
  replay-release (h ∷ held) (release q ∷ es) r {left} e s =
      ground (arith, replay-release held es r {left = left})
