-- ===== src/Ring/Queue.antt =====
-- What a ring promises: a first-in first-out queue of at most `capacity` items.
use low_latency_pipeline.Prelude.{
  ℕ, Bool, true, false, Option, none, some, List, [], ◌∷◌, ◌++◌, length, ◌==◌, if◌then◌else◌,
}

module _ {ℓ} {A : Type ℓ} where
  unfoldable pub push : ℕ → List A → A → Bool × List A
  push capacity q item = if length q == capacity then (false, q) else (true, q ++ item ∷ [])

  unfoldable pub pop : List A → Option A × List A
  pop [] = (none, [])
  pop (x ∷ q) = (some x, q)
