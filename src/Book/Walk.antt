-- ===== src/Book/Walk.antt =====
-- `top_bids` and `top_asks` give the best levels in order.
use low_latency_pipeline.Prelude.{
  ℕ, zero, suc, ◌%◌, ◌<◌, ◌≡◌, ◌≢◌, inl, inr, refl, true, false, arith, ◌==◌, if◌then◌else◌, List,
  [], ◌∷◌,
}
use low_latency_pipeline.Event.{Side, sell, buy}
use low_latency_pipeline.Ring.{u32_mod}
use low_latency_pipeline.Levels.{PriceLevelArray, at}
use low_latency_pipeline.Levels.Sides.{at-level_price}
use low_latency_pipeline.Book.{
  OrderBook, Level, side_levels, top, next_top, walk, top_bids, top_asks,
}
use low_latency_pipeline.Book.Resting.{Resting, orders_at, shares_at}
use low_latency_pipeline.Book.Invariant.{Holds}
use low_latency_pipeline.Book.Depth.{
  IsNextBest, NoneBeyond, NoneBetween, sentinel, no_limit, orders_level, top-IsNextBest,
  next_top-IsNextBest,
}

-- `out` is the levels with orders that are worse than `limit`, from the best on and with none left
-- out, each with its orders and, on uint32_t, its shares: all of them, or the first `n`.
abbrev pub IsDepth : Side → Resting → (limit n : ℕ) → List Level → Type 0
IsDepth side q limit zero [] = Unit {0}
IsDepth side q limit zero (l ∷ out) = ⊥
IsDepth side q limit (suc n) [] = NoneBeyond side q limit
IsDepth side q limit (suc n) (l ∷ out) =
    (0 < orders_at side l.price q)
    × NoneBetween side q limit l.price
    × (l.order_count ≡ orders_at side l.price q)
    × (l.shares ≡ shares_at side l.price q % u32_mod)
    × IsDepth side q l.price n out

-- One turn of the walk.
abbrev step_walk : Side → PriceLevelArray → (price : ℕ) → List Level → List Level
step_walk side a price others =
    let lvl = at a price in
    if price == sentinel side
    then []
    else (record { price = price; shares = lvl.total_shares; order_count = lvl.order_count })
      ∷ others

walk-zero : (side : Side) (a : PriceLevelArray) (price : ℕ) → walk side a price zero ≡ []
unfolding walk
walk-zero side a price = refl

walk-suc :
    (side : Side) (a : PriceLevelArray) (price n : ℕ)
    → walk side a price (suc n) ≡ step_walk side a price (walk side a (next_top side a price) n)
unfolding walk
walk-suc buy a price n = refl
walk-suc sell a price n = refl

module _ (max_levels capacity : ℕ) (hash : ℕ → ℕ) (base : ℕ) {book : OrderBook} {q : Resting}
    (h : Holds max_levels capacity hash base book q) where
  -- No order rests at the sentinel.
  price_real : (s : Side) (p : ℕ) → 0 < orders_at s p q → p ≢ sentinel s
  price_real buy p more e =
      let (i, lt, at_i, bit, positive) = orders_level max_levels capacity hash base h buy p more in
      ground arith
  price_real sell p more e =
      let (i, lt, at_i, bit, positive) = orders_level max_levels capacity hash base h sell p more in
      let w = (h.sides sell).holds.window in ground (arith, w.fits, w.on_tick)

  at_orders :
      (s : Side) (p : ℕ)
      → 0 < orders_at s p q
      → ((at (side_levels s book) p).order_count ≡ orders_at s p q)
        × ((at (side_levels s book) p).total_shares ≡ shares_at s p q % u32_mod)
  at_orders s p more =
      let (i, lt, at_i, bit, positive) = orders_level max_levels capacity hash base h s p more in
      let o = h.sides s in
      let here = at-level_price max_levels (side_levels s book) i o.holds.window lt in
      rw (at_i, here, o.based) (o.holds.counted i lt, o.holds.totalled i lt)

  walk-IsDepth :
      (s : Side) (n limit p : ℕ)
      → IsNextBest s q limit p
      → IsDepth s q limit n (walk s (side_levels s book) p n)
  walk-IsDepth s zero limit p best = rw (walk-zero s (side_levels s book) p) tt
  walk-IsDepth s (suc n) limit p (inl (e, none_in)) =
      let stop : (p == sentinel s) ≡ true = ground arith in
      rw (walk-suc s (side_levels s book) p n, stop) none_in
  walk-IsDepth s (suc n) limit p (inr (more, between)) =
      let go : (p == sentinel s) ≡ false = ground (arith, price_real s p more) in
      rw (walk-suc s (side_levels s book) p n, go)
        (
          more,
          between,
          (at_orders s p more).0,
          (at_orders s p more).1,
          walk-IsDepth s n p _ (next_top-IsNextBest max_levels capacity hash base h s p more),
        )

  -- `top_bids` writes the best levels of the buy orders, from the best on and with none left out,
  -- each with its price, its orders and, on uint32_t, its shares: all, or the first `max_out`.
  pub top_bids-IsDepth :
      (max_out : ℕ) → IsDepth buy q (no_limit buy) max_out (top_bids book max_out)
  unfolding top_bids side_levels top
  top_bids-IsDepth max_out =
      walk-IsDepth buy max_out (no_limit buy) book.tob.best_bid
        (top-IsNextBest max_levels capacity hash base h buy)

  -- `top_asks` writes those of the sell orders.
  pub top_asks-IsDepth :
      (max_out : ℕ) → IsDepth sell q (no_limit sell) max_out (top_asks book max_out)
  unfolding top_asks side_levels top
  top_asks-IsDepth max_out =
      walk-IsDepth sell max_out (no_limit sell) book.tob.best_ask
        (top-IsNextBest max_levels capacity hash base h sell)
