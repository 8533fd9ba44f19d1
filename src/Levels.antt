-- ===== src/Levels.antt =====
-- src/core/core.hpp and src/core/core.cpp, `PriceLevelArray<MaxLevels>`: one side of the book as an array of
-- levels, one for each tick from `base_price` on, with the bitmap of the levels that have orders.
-- An access past the array, which the code does not check, is an access of the function `levels`.
pub mod Sides
use low_latency_pipeline.Prelude.{ℕ, ◌*◌, ◌/◌, Bool, ltb, ◌==◌, if◌then◌else◌, update}
use low_latency_pipeline.Ring.{u32_mod, add32, sub32}
use low_latency_pipeline.Bitmap.{
  OccupancyBitmap, npos, fresh, reset, set, clear, next_set, prev_set,
}

-- PRICE_TICK
abbrev pub price_tick : ℕ
price_tick = 100

pub record PriceLevel : Type 0 where
  pub total_shares : ℕ
  pub order_count : ℕ

abbrev pub no_level : PriceLevel
no_level = record { total_shares = 0; order_count = 0 }

pub record PriceLevelArray : Type 0 where
  pub base_price : ℕ
  pub levels : ℕ → PriceLevel
  pub occupied : OccupancyBitmap

-- `PriceLevelArray<MaxLevels>{}`
unfoldable pub fresh_levels : (tiers max_levels : ℕ) → PriceLevelArray
fresh_levels tiers max_levels = record {
  base_price = 0;
  levels = λ i. no_level;
  occupied = fresh tiers max_levels;
}

unfoldable pub init_levels : PriceLevelArray → ℕ → PriceLevelArray
init_levels a base_price = record {
  base_price = base_price / price_tick * price_tick;
  levels = λ i. no_level;
  occupied = reset a.occupied;
}

unfoldable pub index_of : PriceLevelArray → ℕ → ℕ
index_of a price = sub32 price a.base_price / price_tick

unfoldable pub in_range : (max_levels : ℕ) → PriceLevelArray → ℕ → Bool
in_range max_levels a price = ltb (index_of a price) max_levels

unfoldable pub at : PriceLevelArray → ℕ → PriceLevel
at a price = a.levels (index_of a price)

-- A write through the reference that `at` gives.
unfoldable pub put : PriceLevelArray → ℕ → PriceLevel → PriceLevelArray
put a price level = record a { levels = update a.levels (index_of a price) level }

unfoldable pub mark_occupied : PriceLevelArray → ℕ → PriceLevelArray
mark_occupied a price = record a { occupied = set a.occupied (index_of a price) }

unfoldable pub mark_empty : PriceLevelArray → ℕ → PriceLevelArray
mark_empty a price = record a { occupied = clear a.occupied (index_of a price) }

-- `base_price_ + i * PRICE_TICK` on uint32_t.
unfoldable pub price_at : PriceLevelArray → ℕ → ℕ
price_at a i = add32 a.base_price (i * price_tick)

unfoldable pub next_occupied_above : PriceLevelArray → ℕ → ℕ
next_occupied_above a price =
    let i = next_set a.occupied (add32 (index_of a price) 1) in
    if i == npos then 0 else price_at a i

unfoldable pub prev_occupied_below : PriceLevelArray → ℕ → ℕ
prev_occupied_below a price =
    let idx = index_of a price in
    let i = prev_set a.occupied (sub32 idx 1) in
    if idx == 0 then 0 else if i == npos then 0 else price_at a i
