-- ===== src/Book/Tops.antt =====
-- The hop from a level of the book to the next one, and the top of a side as levels fill and drain.
use low_latency_pipeline.Prelude.{
  ℕ, ◌+◌, ◌-◌, ◌^◌, ◌<◌, ◌≡◌, ◌≢◌, ◌⊎◌, inl, inr, true, false, arith, ◌==◌, if◌then◌else◌,
  Bool-cases,
}
use low_latency_pipeline.Event.{Side, sell, buy}
use low_latency_pipeline.Ring.{add32, sub32}
use low_latency_pipeline.Bitmap.{npos}
use low_latency_pipeline.Bitmap.Member.{member, member-lt}
use low_latency_pipeline.Bitmap.Search.{First, Last, next_set-First, prev_set-Last}
use low_latency_pipeline.Levels.{
  PriceLevelArray, price_at, next_occupied_above, prev_occupied_below,
}
use low_latency_pipeline.Levels.Sides.{level_price, IsWindow, index_of-level_price, price_at_lem}
use low_latency_pipeline.Book.{next_top, no_ask}

-- `p` is the price of the nearest level with its bit set beyond level `i`, away from the top of
-- the book, or the sentinel of the side if there is none.
abbrev pub Next : Side → PriceLevelArray → (i p : ℕ) → Type 0
Next buy a i p =
    ((p ≡ 0) × ((j : ℕ) → j < i → member a.occupied j ≡ false))
    ⊎ ((j : ℕ) × (j < i)
        × (member a.occupied j ≡ true)
        × (p ≡ level_price a j)
        × ((k : ℕ) → j < k → k < i → member a.occupied k ≡ false))
Next sell a i p =
    ((p ≡ no_ask) × ((j : ℕ) → i < j → member a.occupied j ≡ false))
    ⊎ ((j : ℕ) × (i < j)
        × (member a.occupied j ≡ true)
        × (p ≡ level_price a j)
        × ((k : ℕ) → i < k → k < j → member a.occupied k ≡ false))

module _ (max_levels : ℕ) where
  Next-bid :
      (a : PriceLevelArray) (i r : ℕ)
      → IsWindow max_levels a
      → i < max_levels
      → (i ≢ 0 → Last (member a.occupied) (i - 1) r)
      → Next buy a i (if i == 0 then 0 else if r == npos then 0 else price_at a r)
  Next-bid a i r w lt last = elim (Bool-cases (i == 0)) [
    | inl z ↦ inl (ground arith, λ j h. ground arith)
    | inr n ↦ elim (last (ground arith)) [
      | inl (e, none_in) ↦ inl (ground arith, λ j h. none_in j (omega arith))
      | inr (le, small, here, none_in) ↦ inr (
        r,
        ground arith,
        here,
        ground (arith, price_at_lem max_levels a r w (omega arith)),
        λ k h1 h2. none_in k h1 (omega arith),
      )
    ]
  ]

  Next-ask :
      (a : PriceLevelArray) (i r : ℕ)
      → IsWindow max_levels a
      → First (member a.occupied) (i + 1) r
      → let next = if r == npos then 0 else price_at a r in
        Next sell a i (if next == 0 then no_ask else next)
  Next-ask a i r w first = elim first [
    | inl (e, none_in) ↦ inl (ground arith, λ j h. none_in j (omega arith))
    | inr (le, small, here, none_in) ↦
        let lt : r < max_levels = member-lt max_levels a.occupied w.valid r here in
        inr (
          r,
          omega arith,
          here,
          ground (arith, price_at_lem max_levels a r w lt, w.positive r here),
          λ k h1 h2. none_in k (omega arith) h2,
        )
  ]

  -- From a level of a side in its window, the hop lands on the nearest level with its bit set
  -- beyond it, or on the sentinel of the side.
  pub next_top-Next :
      (side : Side) (a : PriceLevelArray) (i : ℕ)
      → IsWindow max_levels a
      → i < max_levels
      → Next side a i (next_top side a (level_price a i))
  unfolding next_top next_occupied_above prev_occupied_below
  next_top-Next buy a i w lt =
      let few : i - 1 < max_levels = omega arith in
      let small : max_levels + 63 < 2 ^ 32 = omega (arith, w.fits) in
      rw (index_of-level_price max_levels a i w lt) (
        Next-bid a i _ w lt (λ n.
          let e : sub32 i 1 ≡ i - 1 = omega arith in
          rw e (prev_set-Last max_levels a.occupied (i - 1) w.valid small few)))
  next_top-Next sell a i w lt =
      let small : max_levels + 63 < 2 ^ 32 = omega (arith, w.fits) in
      let e : add32 i 1 ≡ i + 1 = omega arith in
      rw (index_of-level_price max_levels a i w lt, e)
        (Next-ask a i _ w (next_set-First max_levels a.occupied (i + 1) w.valid small))
