-- ===== src/Book/Own.antt =====
-- The steps of a handler on the side of its order: the array and the top follow the orders there,
-- and the rest of the book stays.
use low_latency_pipeline.Prelude.{
  ℕ, ◌+◌, ◌*◌, ◌%◌, ◌<◌, ◌≡◌, ◌≢◌, ◌∙◌, ap, arith, ◌==◌, if◌then◌else◌, Bool-cases, inl, inr,
}
use low_latency_pipeline.Event.{Side}
use low_latency_pipeline.Ring.{u32_mod}
use low_latency_pipeline.OrderMap.{Slots}
use low_latency_pipeline.Levels.{PriceLevelArray, at, price_tick}
use low_latency_pipeline.Levels.Sides.{level_price, at-level_price}
use low_latency_pipeline.Book.{
  OrderBook, side_levels, top, rest, take_shares, count_down, settle, drop,
}
use low_latency_pipeline.Book.Sides.{SideHolds}
use low_latency_pipeline.Book.Steps.{
  rest-Holds, take-Holds, count_down-Holds, emptied-Holds, kept-Holds, rest_levels-base, put-base,
  mark_empty-base,
}
use low_latency_pipeline.Book.Views.{
  side_levels-written, top-written, rest-written, emptied-written, side_levels-with_levels,
  top-with_levels, take_shares-written, count_down-written, side_levels-orders, top-orders,
  drop-views,
}

module _ (max_levels base : ℕ) (side : Side) where
  -- The side of the book, where `count i` orders with `total i` shares rest at level `i`.
  pub record Own (book : OrderBook) (count total : ℕ → ℕ) (hole : ℕ) : Type 0 where
    pub based : (side_levels side book).base_price ≡ base
    pub holds : SideHolds max_levels side (side_levels side book) (top side book) count total hole

  own :
      (book : OrderBook) (count total : ℕ → ℕ) (hole best : ℕ) (a : PriceLevelArray)
      → side_levels side book ≡ a
      → top side book ≡ best
      → a.base_price ≡ base
      → SideHolds max_levels side a best count total hole
      → Own book count total hole
  own book count total hole best a ea et based holds = record {
    based = rw ea based;
    holds = rw (ea, et) holds;
  }

  -- The table plays no part.
  pub Own-orders :
      (book : OrderBook) (count total : ℕ → ℕ) (hole : ℕ) (orders : Slots)
      → Own book count total hole
      → Own (record book { orders = orders }) count total hole
  Own-orders book count total hole orders h =
      own _ count total hole _ _ (side_levels-orders side orders book) (top-orders side orders book)
        h.based h.holds

  pub Own-drop :
      (book : OrderBook) (count total : ℕ → ℕ) (hole : ℕ)
      → Own book count total hole
      → Own (drop book) count total hole
  Own-drop book count total hole h =
      own _ count total hole _ _ (drop-views side book).0 (drop-views side book).1 h.based h.holds

  module _ {book : OrderBook} {count total : ℕ → ℕ} {hole : ℕ} (h : Own book count total hole)
      (i : ℕ) (lt : i < max_levels) where
    own_price : base + i * price_tick ≡ level_price (side_levels side book) i
    own_price = ground (arith, h.based)

    pub rest-Own :
        (shares : ℕ) (count' total' : ℕ → ℕ)
        → 0 < base + i * price_tick
        → count i + 1 < u32_mod
        → ((j : ℕ) → count' j ≡ (if j == i then count j + 1 else count j))
        → ((j : ℕ) → total' j ≡ (if j == i then total j + shares else total j))
        → Own (rest side (base + i * price_tick) shares book) count' total' hole
    rest-Own shares count' total' pos room cs ts =
        rw (own_price, rest-written)
          (own _ count' total' hole _ _ (side_levels-written side _ _ _ book)
            (top-written side _ _ _ book) (rest_levels-base _ _ _ ∙ h.based)
            (rest-Holds max_levels h.holds i shares count' total' lt (ground (arith, own_price))
              room cs ts))

    pub take-Own :
        (shares : ℕ) (total' : ℕ → ℕ)
        → hole ≡ max_levels
        → shares < u32_mod
        → (total' i + shares) % u32_mod ≡ total i % u32_mod
        → ((j : ℕ) → j ≢ i → total' j ≡ total j)
        → Own (take_shares side (base + i * price_tick) shares book) count total' hole
    take-Own shares total' none_open fits at_i others =
        rw (own_price, take_shares-written)
          (own _ count total' hole _ _ (side_levels-with_levels side _ book)
            (top-with_levels side side _ book) (put-base _ _ _ ∙ h.based)
            (take-Holds max_levels h.holds i shares total' lt none_open fits at_i others))

    pub count_down-Own :
        (count' : ℕ → ℕ)
        → hole ≡ max_levels
        → count' i + 1 ≡ count i
        → ((j : ℕ) → j ≢ i → count' j ≡ count j)
        → Own (count_down side (base + i * price_tick) book) count' total i
    count_down-Own count' none_open at_i others =
        rw (own_price, count_down-written)
          (own _ count' total i _ _ (side_levels-with_levels side _ book)
            (top-with_levels side side _ book) (put-base _ _ _ ∙ h.based)
            (count_down-Holds max_levels h.holds i count' lt none_open at_i others))

    settle_test : (at (side_levels side book) (base + i * price_tick)).order_count ≡ count i
    settle_test = rw own_price (
        ap (λ l. l.order_count)
          (at-level_price max_levels (side_levels side book) i h.holds.window lt)
        ∙ h.holds.counted i lt)

    pub settle-Own :
        hole ≡ i → Own (settle side (base + i * price_tick) book) count total max_levels
    unfolding settle
    settle-Own gap = elim (Bool-cases (count i == 0)) [
      | inl z ↦
          rw (settle_test, z, own_price, emptied-written)
            (own _ count total max_levels _ _ (side_levels-written side _ _ _ book)
              (top-written side _ _ _ book) (mark_empty-base _ _ ∙ h.based)
              (emptied-Holds max_levels h.holds i lt gap (ground arith)))
      | inr n ↦
          rw (settle_test, n)
            (record { based = h.based; holds = kept-Holds max_levels h.holds i gap (ground arith) })
    ]
