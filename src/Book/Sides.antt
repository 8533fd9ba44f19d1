-- ===== src/Book/Sides.antt =====
-- One side of the book against the orders that rest on it, level by level, and how each step of the
-- handlers changes it.
use low_latency_pipeline.Prelude.{
  ℕ, ◌-◌, ◌%◌, ◌^◌, ◌<◌, ◌≡◌, ◌≢◌, inl, inr, true, false, arith, ltb, ◌==◌, if◌then◌else◌,
  Bool-cases, not, ◌&&◌, ◌||◌, ℕ_discrete,
}
use low_latency_pipeline.Event.{Side, sell, buy}
use low_latency_pipeline.Ring.{u32_mod}
use low_latency_pipeline.Bitmap.Member.{member}
use low_latency_pipeline.Levels.{PriceLevel, PriceLevelArray}
use low_latency_pipeline.Levels.Sides.{level_price, IsTop, IsWindow}
use low_latency_pipeline.Book.{improves}
use low_latency_pipeline.Book.Tops.{Next}

module _ (max_levels : ℕ) where
  -- The array and the top of a side, where `count i` orders with `total i` shares rest at level
  -- `i`. A bit is set at each level that has orders, and at no other but `hole`, which may be a
  -- level that has just lost its last order.
  pub record SideHolds (side : Side) (a : PriceLevelArray) (best : ℕ) (count total : ℕ → ℕ)
      (hole : ℕ) : Type 0 where
    pub window : IsWindow max_levels a
    pub is_top : IsTop side a best
    pub counted : (i : ℕ) → i < max_levels → (a.levels i).order_count ≡ count i
    pub totalled : (i : ℕ) → i < max_levels → (a.levels i).total_shares ≡ total i % u32_mod
    pub small : (i : ℕ) → i < max_levels → count i < u32_mod
    pub has_bit : (i : ℕ) → i < max_levels → 0 < count i → member a.occupied i ≡ true
    pub no_bit : (i : ℕ) → i < max_levels → i ≢ hole → count i ≡ 0 → member a.occupied i ≡ false
    pub hole_bit : hole < max_levels → member a.occupied hole ≡ true

  -- The array when its levels change and its bits do not.
  pub IsTop-levels :
      (side : Side) (a : PriceLevelArray) (levels : ℕ → PriceLevel) (best : ℕ)
      → IsTop side a best
      → IsTop side (record a { levels = levels }) best
  IsTop-levels buy a levels best t = t
  IsTop-levels sell a levels best t = t

  pub IsWindow-levels :
      (a : PriceLevelArray) (levels : ℕ → PriceLevel)
      → IsWindow max_levels a
      → IsWindow max_levels (record a { levels = levels })
  IsWindow-levels a levels w = record {
    on_tick = w.on_tick;
    fits = w.fits;
    valid = w.valid;
    positive = w.positive;
  }

  -- A new level with its bit set, and the top if the level is above it.
  pub IsTop-added :
      (side : Side) (a u : PriceLevelArray) (i best : ℕ)
      → u.base_price ≡ a.base_price
      → ((j : ℕ) → member u.occupied j ≡ (member a.occupied j || (j == i)))
      → 0 < level_price a i
      → level_price a i < 2 ^ 32 - 1
      → IsTop side a best
      → IsTop side u (if improves side (level_price a i) best then level_price a i else best)
  unfolding improves
  IsTop-added buy a u i best base bits pos lt (inl (e, none_in)) =
      inr (i, ground (arith, bits i), ground arith, λ j h. ground (arith, bits j, none_in j))
  IsTop-added buy a u i best base bits pos lt (inr (j, here, e, all)) =
      elim (Bool-cases (ltb j i)) [
        | inl more ↦
            inr (i, ground (arith, bits i), ground arith, λ k h. ground (arith, bits k, all k))
        | inr less ↦
            inr (j, ground (arith, bits j), ground arith, λ k h. ground (arith, bits k, all k))
      ]
  IsTop-added sell a u i best base bits pos lt (inl (e, none_in)) =
      inr (i, ground (arith, bits i), ground arith, λ j h. ground (arith, bits j, none_in j))
  IsTop-added sell a u i best base bits pos lt (inr (j, here, e, all)) =
      elim (Bool-cases (ltb i j)) [
        | inl more ↦
            inr (i, ground (arith, bits i), ground arith, λ k h. ground (arith, bits k, all k))
        | inr less ↦
            inr (j, ground (arith, bits j), ground arith, λ k h. ground (arith, bits k, all k))
      ]

  -- The top if the level `i` has lost its bit.
  pub IsTop-cleared :
      (side : Side) (a u : PriceLevelArray) (i best next : ℕ)
      → u.base_price ≡ a.base_price
      → ((j : ℕ) → member u.occupied j ≡ (member a.occupied j && not (j == i)))
      → member a.occupied i ≡ true
      → Next side u i next
      → IsTop side a best
      → IsTop side u (if level_price a i == best then next else best)
  IsTop-cleared buy a u i best next base bits was hop (inl (e, none_in)) = cc (was, none_in i)
  IsTop-cleared buy a u i best next base bits was hop (inr (j, here, e, all)) =
      elim (ℕ_discrete i j) [
        | yes same ↦ elim hop [
          | inl (z, below) ↦ inl (ground arith, λ k. ground (arith, bits k, all k, below k))
          | inr (k, lt, bit, at_k, gap) ↦
              inr (k, bit, ground arith, λ m h. ground (arith, bits m, all m, gap m))
        ]
        | no n ↦
            inr (j, ground (arith, bits j), ground (arith), λ k h. ground (arith, bits k, all k))
      ]
  IsTop-cleared sell a u i best next base bits was hop (inl (e, none_in)) = cc (was, none_in i)
  IsTop-cleared sell a u i best next base bits was hop (inr (j, here, e, all)) =
      elim (ℕ_discrete i j) [
        | yes same ↦ elim hop [
          | inl (z, below) ↦ inl (ground arith, λ k. ground (arith, bits k, all k, below k))
          | inr (k, lt, bit, at_k, gap) ↦
              inr (k, bit, ground arith, λ m h. ground (arith, bits m, all m, gap m))
        ]
        | no n ↦
            inr (j, ground (arith, bits j), ground (arith), λ k h. ground (arith, bits k, all k))
      ]
