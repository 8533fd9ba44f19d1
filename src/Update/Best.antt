-- ===== src/Update/Best.antt =====
-- The best prices of a frame, with the frame's own values for an empty side.
use low_latency_pipeline.Prelude.{
  ℕ, zero, suc, ◌<◌, ◌≡◌, ◌⊎◌, inl, inr, refl, true, List, [], ◌∷◌, length, arith, ltb,
  if◌then◌else◌,
}
use low_latency_pipeline.Event.{Event, Side, sell, buy}
use low_latency_pipeline.Book.{OrderBook, Level, Trade, top_bids, top_asks, top}
use low_latency_pipeline.Book.Resting.{Resting, orders_at}
use low_latency_pipeline.Book.Invariant.{Holds}
use low_latency_pipeline.Book.Depth.{IsNextBest, NoneBeyond, NoneBetween, no_limit, top-IsNextBest}
use low_latency_pipeline.Book.Walk.{IsDepth, top_bids-IsDepth, top_asks-IsDepth}
use low_latency_pipeline.Update.{
  BookSnapshot, MarketUpdate, capture, build_market_update, empty_bid, empty_ask,
}

-- `best` is the best price at which orders of the side rest, or `empty` if none do.
abbrev pub IsBestOr : Side → Resting → (empty best : ℕ) → Type 0
IsBestOr side q empty best =
    ((best ≡ empty) × NoneBeyond side q (no_limit side))
    ⊎ ((0 < orders_at side best q) × NoneBetween side q (no_limit side) best)

-- A side with a level is not empty.
not_empty :
    (side : Side) (q : Resting) (limit p : ℕ)
    → 0 < orders_at side p q
    → NoneBetween side q limit p
    → NoneBeyond side q limit
    → ⊥
not_empty buy q limit p more between none_in = omega (arith, none_in p between.0)
not_empty sell q limit p more between none_in = omega (arith, none_in p between.0)

frame_side :
    (side : Side) (q : Resting) (best empty n : ℕ) (xs : List Level)
    → IsNextBest side q (no_limit side) best
    → IsDepth side q (no_limit side) (suc n) xs
    → IsBestOr side q empty (if ltb 0 (length xs) then best else empty)
frame_side side q best empty n [] next depth = inl (refl, depth)
frame_side side q best empty n (l ∷ xs) (inl (e, none_in)) depth =
    absurd (not_empty side q (no_limit side) l.price depth.0 depth.1 none_in)
frame_side side q best empty n (l ∷ xs) (inr found) depth =
    let some_level : ltb 0 (suc (length xs)) ≡ true = ground arith in rw some_level (inr found)

-- Of a book that stands for a list of orders, captured to at least one level, the frame has the
-- highest price at which buy orders rest or EMPTY_BID, and the lowest at which sell orders rest or
-- EMPTY_ASK, exactly as the side has orders or not.
pub build_market_update-IsBestOr :
    (max_levels capacity : ℕ) (hash : ℕ → ℕ) (base : ℕ) (depth exec_depth : ℕ) (old : BookSnapshot)
    (book : OrderBook) (q : Resting) (symbol : List ℕ) (event_seq : ℕ) (mu : MarketUpdate)
    (ev : Event) (trade : Trade) (instrument extra_flags : ℕ)
    → Holds max_levels capacity hash base book q
    → 0 < depth
    → let snap = capture depth old book symbol event_seq in
      let frame = build_market_update exec_depth mu ev snap trade instrument extra_flags in
      IsBestOr buy q empty_bid frame.best_bid × IsBestOr sell q empty_ask frame.best_ask
unfolding capture build_market_update top
build_market_update-IsBestOr max_levels capacity hash base zero exec_depth old book q symbol
      event_seq mu ev trade instrument extra_flags h deep =
    ground arith
build_market_update-IsBestOr max_levels capacity hash base (suc depth) exec_depth old book q symbol
      event_seq mu ev trade instrument extra_flags h deep =
    (
      frame_side buy q book.tob.best_bid empty_bid depth (top_bids book (suc depth))
          (top-IsNextBest max_levels capacity hash base h buy)
          (top_bids-IsDepth max_levels capacity hash base h (suc depth)),
      frame_side sell q book.tob.best_ask empty_ask depth (top_asks book (suc depth))
          (top-IsNextBest max_levels capacity hash base h sell)
          (top_asks-IsDepth max_levels capacity hash base h (suc depth)),
    )
