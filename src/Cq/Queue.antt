-- ===== src/Cq/Queue.antt =====
-- What a completion queue promises: a FIFO of at most `cap` entries.
use dis_kverbs.Common.{ℕ, List, [], ◌∷◌, ◌++◌, ltb, if◌then◌else◌, length, take, drop}
use dis_kverbs.Verbs.{Ret, done, fail}

module _ {ℓ} {A : Type ℓ} where
  -- Refused when full, and then the queue stays as it is.
  unfoldable pub push : ℕ → List A → A → Ret × List A
  push cap q x = if ltb (length q) cap then (done, q ++ x ∷ []) else (fail 42, q)

  -- At most `n` entries, oldest first.
  unfoldable pub pop : ℕ → List A → List A × List A
  pop n q = (take n q, drop n q)
