-- ===== src/Update/Tests.antt =====
-- A frame of depth 1 from a snapshot of depth 3.
use low_latency_pipeline.Prelude.{◌*◌, ◌-◌, ◌^◌, ◌≡◌, [], map, arith}
use low_latency_pipeline.Event.{Event, buy, sell}
use low_latency_pipeline.Bitmap.{leaf}
use low_latency_pipeline.Levels.{PriceLevelArray}
use low_latency_pipeline.Book.{OrderBook, no_trade, fresh_book, init, top_bids, top_asks}
use low_latency_pipeline.Update.{
  BookSnapshot, MarketUpdate, capture, build_market_update, widen, empty_bid, empty_ask,
}
use low_latency_pipeline.OrderMap.{order_hash}
use low_latency_pipeline.Book.Init.{init_fresh-Holds}
use low_latency_pipeline.Update.Best.{IsBestOr, build_market_update-IsBestOr}
use low_latency_pipeline.Update.Frame.{counted, build_market_update-walk}

-- Bids at 1.01 and 1.03.
abbrev side : PriceLevelArray
side = record {
  base_price = 10000;
  levels = λ i. record { total_shares = 10 * i; order_count = 1 };
  occupied = leaf 10;
}

abbrev book : OrderBook
book = record (fresh_book 0 64) {
  tob = record { best_bid = 10300; best_ask = 2 ^ 32 - 1 };
  bids = side;
}

abbrev stale : BookSnapshot
stale = record {
  event_seq = 0;
  stock_id = [];
  best_bid = 0;
  best_ask = 0;
  nb = 0;
  na = 0;
  bids = λ i. record { price = 7; shares = 7; order_count = 7 };
  asks = λ i. record { price = 7; shares = 7; order_count = 7 };
}

abbrev blank : MarketUpdate
blank = record {
  event_seq = 0;
  event_time = 0;
  tsc_in = 0;
  best_bid = 0;
  best_ask = 0;
  trade_price = 0;
  trade_qty = 0;
  instrument = 0;
  trade_side = buy;
  flags = 0;
  nb = 0;
  na = 0;
  bids = λ i. record { price = 9; qty = 9; order_count = 9 };
  asks = λ i. record { price = 9; qty = 9; order_count = 9 };
}

abbrev event : Event
event = record {
  message_type = 65;
  stock_locate = 3;
  tracking_number = 0;
  timestamp = 5;
  order_ref_number = 1;
  side = buy;
  shares = 30;
  stock = [];
  price = 10300;
  match_number = 0;
  new_order_ref_number = 0;
  tsc_in = 0;
}

build_market_update-walk_example :
    let snap = capture 3 stale book [] 1 in
    let frame = build_market_update 1 blank event snap no_trade 0 0 in
    (counted frame.nb frame.bids ≡ map widen (top_bids book 1))
    × (counted frame.na frame.asks ≡ map widen (top_asks book 1))
build_market_update-walk_example =
    build_market_update-walk 3 1 stale book [] 1 blank event no_trade 0 0 (omega arith)

build_market_update-IsBestOr_example :
    let snap = capture 3 stale (init (fresh_book 0 64) 3 10000) [] 1 in
    let frame = build_market_update 1 blank event snap no_trade 0 0 in
    IsBestOr buy [] empty_bid frame.best_bid × IsBestOr sell [] empty_ask frame.best_ask
build_market_update-IsBestOr_example =
    build_market_update-IsBestOr 64 8 order_hash 10000 3 1 stale (init (fresh_book 0 64) 3 10000) []
      [] 1 blank event no_trade 0 0
      (init_fresh-Holds 0 64 8 order_hash 3 10000 (omega arith) (omega arith)) (omega arith)
