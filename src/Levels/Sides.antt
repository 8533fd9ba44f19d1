-- ===== src/Levels/Sides.antt =====
-- The invariant of one side of the book: its level array and its top.
use low_latency_pipeline.Prelude.{
  ℕ, ◌+◌, ◌-◌, ◌*◌, ◌/◌, ◌%◌, ◌^◌, ◌<◌, ◌≤◌, ◌≡◌, ◌⊎◌, ap, true, false, arith, ltb, leb, ◌&&◌,
}
use low_latency_pipeline.Event.{Side, sell, buy}
use low_latency_pipeline.Bitmap.Member.{member, IsValid}
use low_latency_pipeline.Levels.{PriceLevelArray, index_of, in_range, at, price_at, price_tick}

-- The price of a level, with no wrap-around.
abbrev pub level_price : PriceLevelArray → ℕ → ℕ
level_price a i = a.base_price + i * price_tick

-- What stands at the top: the sentinel of the side if no bit is set, or else the price of the last
-- set bit for bids and of the first for asks.
abbrev pub IsTop : Side → PriceLevelArray → ℕ → Type 0
IsTop buy a best =
    ((best ≡ 0) × ((i : ℕ) → member a.occupied i ≡ false))
    ⊎ ((j : ℕ) × (member a.occupied j ≡ true)
        × (best ≡ level_price a j)
        × ((i : ℕ) → member a.occupied i ≡ true → i ≤ j))
IsTop sell a best =
    ((best ≡ 2 ^ 32 - 1) × ((i : ℕ) → member a.occupied i ≡ false))
    ⊎ ((j : ℕ) × (member a.occupied j ≡ true)
        × (best ≡ level_price a j)
        × ((i : ℕ) → member a.occupied i ≡ true → j ≤ i))

module _ (max_levels : ℕ) where
  -- The array starts on a tick, ends within uint32_t, and has a bit set only at a level with a
  -- price above 0.
  pub record IsWindow (a : PriceLevelArray) : Type 0 where
    pub on_tick : a.base_price % price_tick ≡ 0
    pub fits : a.base_price + max_levels * price_tick ≤ 2 ^ 32
    pub valid : IsValid max_levels a.occupied
    pub positive : (i : ℕ) → member a.occupied i ≡ true → 0 < level_price a i

  -- A price that is the price of a level: on the tick, above 0 and in the window.
  abbrev pub IsLevelPrice : PriceLevelArray → ℕ → Type 0
  IsLevelPrice a price =
      (i : ℕ) × (i < max_levels) × (price ≡ level_price a i) × (0 < level_price a i)

  pub index_of-level_price :
      (a : PriceLevelArray) (i : ℕ) → IsWindow a → i < max_levels → index_of a (level_price a i) ≡ i
  unfolding index_of
  index_of-level_price a i w lt = omega (arith, w.fits)

  pub at-level_price :
      (a : PriceLevelArray) (i : ℕ)
      → IsWindow a
      → i < max_levels
      → at a (level_price a i) ≡ a.levels i
  unfolding at
  at-level_price a i w lt = ap a.levels (index_of-level_price a i w lt)

  pub price_at_lem :
      (a : PriceLevelArray) (i : ℕ) → IsWindow a → i < max_levels → price_at a i ≡ level_price a i
  unfolding price_at
  price_at_lem a i w lt = omega (arith, w.fits)

  -- A price on the tick is in range exactly if it is in the window, and then it is the price of the
  -- level that it indexes.
  pub in_range_lem :
      (a : PriceLevelArray) (price : ℕ)
      → IsWindow a
      → price < 2 ^ 32
      → price % price_tick ≡ 0
      → in_range max_levels a price
        ≡ (leb a.base_price price && ltb price (a.base_price + max_levels * price_tick))
  unfolding in_range index_of
  in_range_lem a price w small tick = ground (arith, w.fits, w.on_tick)

  pub in_window_lem :
      (a : PriceLevelArray) (price : ℕ)
      → IsWindow a
      → price % price_tick ≡ 0
      → (leb a.base_price price && ltb price (a.base_price + max_levels * price_tick)) ≡ true
      → (i : ℕ) × (i < max_levels) × (price ≡ level_price a i)
  in_window_lem a price w tick h =
      ((price - a.base_price) / price_tick, ground arith, ground (arith, w.on_tick))
