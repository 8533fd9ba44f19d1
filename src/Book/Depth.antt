-- ===== src/Book/Depth.antt =====
-- The top of the book is the best price at which orders rest, and each hop leads to the next best.
use low_latency_pipeline.Prelude.{
  ℕ, ◌+◌, ◌*◌, ◌^◌, ◌<◌, ◌≤◌, ◌≡◌, ◌⊎◌, inl, inr, refl, true, false, arith, Bool-cases, ℕ_discrete,
  subst,
}
use low_latency_pipeline.Event.{Side, sell, buy}
use low_latency_pipeline.Bitmap.Member.{member, member-lt}
use low_latency_pipeline.Levels.{PriceLevelArray, price_tick}
use low_latency_pipeline.Levels.Sides.{level_price}
use low_latency_pipeline.Book.{OrderBook, side_levels, top, next_top, no_ask}
use low_latency_pipeline.Book.Tops.{next_top-Next}
use low_latency_pipeline.Book.Resting.{Resting, orders_at, some_order}
use low_latency_pipeline.Book.Invariant.{Holds}

-- No order rests at a price that is worse than `limit`.
abbrev pub NoneBeyond : Side → Resting → (limit : ℕ) → Type 0
NoneBeyond buy q limit = (price : ℕ) → price < limit → orders_at buy price q ≡ 0
NoneBeyond sell q limit = (price : ℕ) → limit < price → orders_at sell price q ≡ 0

-- No order rests at a price that is worse than `limit` and better than `p`.
abbrev pub NoneBetween : Side → Resting → (limit p : ℕ) → Type 0
NoneBetween buy q limit p =
    (p < limit) × ((price : ℕ) → p < price → price < limit → orders_at buy price q ≡ 0)
NoneBetween sell q limit p =
    (limit < p) × ((price : ℕ) → limit < price → price < p → orders_at sell price q ≡ 0)

-- The sentinel of an empty side.
abbrev pub sentinel : Side → ℕ
sentinel buy = 0
sentinel sell = no_ask

-- `p` is the best price with orders that is worse than `limit`, or the sentinel of the side if
-- there is none.
abbrev pub IsNextBest : Side → Resting → (limit p : ℕ) → Type 0
IsNextBest side q limit p =
    ((p ≡ sentinel side) × NoneBeyond side q limit)
    ⊎ ((0 < orders_at side p q) × NoneBetween side q limit p)

-- The limit that excludes no price.
abbrev pub no_limit : Side → ℕ
no_limit buy = 2 ^ 32
no_limit sell = 0

module _ (max_levels capacity : ℕ) (hash : ℕ → ℕ) (base : ℕ) {book : OrderBook} {q : Resting}
    (h : Holds max_levels capacity hash base book q) where
  -- Orders rest at the prices of levels whose bits are set.
  pub orders_level :
      (s : Side) (price : ℕ)
      → 0 < orders_at s price q
      → (i : ℕ) × (i < max_levels)
        × (price ≡ level_price (side_levels s book) i)
        × (member (side_levels s book).occupied i ≡ true)
        × (0 < price)
  orders_level s price more =
      let (ref, e, has, here) = some_order s price q h.unique more in
      let (i, lt, at_i, positive, small) = h.on_book ref e has in
      let same : price ≡ base + i * price_tick = ground arith in
      let o = h.sides s in
      (
        i,
        lt,
        ground (arith, o.based),
        o.holds.has_bit i lt (subst (λ x. 0 < orders_at s x q) same more),
        ground arith,
      )

  level_orders :
      (s : Side) (i : ℕ)
      → member (side_levels s book).occupied i ≡ true
      → 0 < orders_at s (level_price (side_levels s book) i) q
  level_orders s i bit =
      let o = h.sides s in
      let lt = member-lt max_levels (side_levels s book).occupied o.holds.window.valid i bit in
      rw o.based (elim (ℕ_discrete (orders_at s (base + i * price_tick) q) 0) [
        | yes z ↦ cc (bit, o.holds.no_bit i lt (λ e. omega arith) z)
        | no n ↦ omega arith
      ])

  -- A price without orders, where an order would set a bit that is not set.
  none_at :
      (s : Side) (price : ℕ)
      → ((i : ℕ)
          → i < max_levels
          → price ≡ level_price (side_levels s book) i
          → member (side_levels s book).occupied i ≡ false)
      → orders_at s price q ≡ 0
  none_at s price clear = elim (ℕ_discrete (orders_at s price q) 0) [
    | yes z ↦ z
    | no n ↦
        let (i, lt, at_i, bit, _) = orders_level s price (omega arith) in cc (bit, clear i lt at_i)
  ]

  bid_level :
      (a : PriceLevelArray) (i : ℕ)
      → a ≡ side_levels buy book
      → i < max_levels
      → level_price a i < 2 ^ 32
  bid_level a i e lt = let o = h.sides buy in ground (arith, o.holds.window.fits, o.based)

  -- The best bid is the highest price at which buy orders rest, and the best ask the lowest at
  -- which sell orders rest; a side without orders has its sentinel.
  pub top-IsNextBest : (s : Side) → IsNextBest s q (no_limit s) (top s book)
  top-IsNextBest buy = elim (h.sides buy).holds.is_top [
    | inl (e, none_in) ↦ inl (e, λ price lt. none_at buy price (λ i i_lt at_i. none_in i))
    | inr (j, here, e, all) ↦ inr (
      rw e (level_orders buy j here),
      (
        rw e (bid_level _ j refl (member-lt max_levels _ (h.sides buy).holds.window.valid j here)),
        λ price above below. none_at buy price (λ i i_lt at_i.
            elim (Bool-cases (member (side_levels buy book).occupied i)) [
              | inl bit ↦ let le : i ≤ j = all i bit in ground arith
              | inr off ↦ off
            ]),
      ),
    )
  ]
  top-IsNextBest sell = elim (h.sides sell).holds.is_top [
    | inl (e, none_in) ↦ inl (e, λ price lt. none_at sell price (λ i i_lt at_i. none_in i))
    | inr (j, here, e, all) ↦ inr (
      rw e (level_orders sell j here),
      (
        rw e ((h.sides sell).holds.window.positive j here),
        λ price above below. none_at sell price (λ i i_lt at_i.
            elim (Bool-cases (member (side_levels sell book).occupied i)) [
              | inl bit ↦ let le : j ≤ i = all i bit in ground arith
              | inr off ↦ off
            ]),
      ),
    )
  ]

  -- From a price with orders, the hop leads to the next best price with orders, or to the
  -- sentinel.
  pub next_top-IsNextBest :
      (s : Side) (p : ℕ)
      → 0 < orders_at s p q
      → IsNextBest s q p (next_top s (side_levels s book) p)
  next_top-IsNextBest buy p more =
      let (i, lt, at_i, bit, _) = orders_level buy p more in
      rw at_i
        (elim (next_top-Next max_levels buy (side_levels buy book) i (h.sides buy).holds.window
          lt) [
            | inl (e, none_in) ↦
                inl (e, λ price below. none_at buy price (λ k k_lt at_k. none_in k (omega arith)))
            | inr (j, j_lt, here, e, gap) ↦ inr (
              rw e (level_orders buy j here),
              (
                rw e (omega arith),
                λ price above below.
                    none_at buy price (λ k k_lt at_k. gap k (omega arith) (omega arith)),
              ),
            )
          ])
  next_top-IsNextBest sell p more =
      let (i, lt, at_i, bit, _) = orders_level sell p more in
      rw at_i
        (elim (next_top-Next max_levels sell (side_levels sell book) i (h.sides sell).holds.window
          lt) [
            | inl (e, none_in) ↦
                inl (e, λ price below. none_at sell price (λ k k_lt at_k. none_in k (omega arith)))
            | inr (j, j_lt, here, e, gap) ↦ inr (
              rw e (level_orders sell j here),
              (
                rw e (omega arith),
                λ price above below.
                    none_at sell price (λ k k_lt at_k. gap k (omega arith) (omega arith)),
              ),
            )
          ])
