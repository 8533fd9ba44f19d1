-- ===== src/Core/Tests.antt =====
-- A hot thread with one order on its book and an empty ring, put through the theorems.
use Prim.Native.Nat.{◌∣◌}
use native.Mathlib.Nat.{dvd_of_mod-eq-zero}
use low_latency_pipeline.Prelude.{ℕ, ◌^◌, ◌≡◌, inl, refl, true, none, some, List, [], ◌∷◌, arith}
use low_latency_pipeline.Event.{Event, buy}
use low_latency_pipeline.OrderMap.{order_hash}
use low_latency_pipeline.OrderMap.Laws.{order_hash-lt}
use low_latency_pipeline.Ring.{empty_ring}
use low_latency_pipeline.Ring.Refine
use low_latency_pipeline.Book.{no_trade}
use low_latency_pipeline.Book.Resting.{Resting}
use low_latency_pipeline.Feed.{PrimaryFeed, apply}
use low_latency_pipeline.Feed.Orders.{added}
use low_latency_pipeline.Feed.Books.{FeedHolds}
use low_latency_pipeline.Feed.Opening.{first_base, opening-FeedHolds}
use low_latency_pipeline.Update.{BookSnapshot, MarketUpdate}
use low_latency_pipeline.Core.{Core}

abbrev event : (message_type shares price : ℕ) → Event
event message_type shares price = record {
  message_type = message_type;
  stock_locate = 3;
  tracking_number = 0;
  timestamp = 5;
  order_ref_number = 77;
  side = buy;
  shares = shares;
  stock = 65 ∷ 66 ∷ [];
  price = price;
  match_number = 0;
  new_order_ref_number = 0;
  tsc_in = 0;
}

abbrev first : Event
first = event 65 50 13200

abbrev feed : PrimaryFeed
feed = record {
  engine = record { books = λ k. none; spare = none };
  symbol = 65 ∷ 66 ∷ [];
  count = 0;
}

divides : 8 ∣ 2 ^ 32
divides = dvd_of_mod-eq-zero 8 refl

with_book :
    (feed' : PrimaryFeed) × (apply 0 64 8 order_hash feed first no_trade
      ≡ some (feed', some 3, no_trade))
    × FeedHolds 0 64 8 order_hash
        (first_base 64 13200)
        3
        (65 ∷ 66 ∷ [])
        feed'
        ((77, added first) ∷ [])
with_book =
    opening-FeedHolds 0 64 8 order_hash divides order_hash-lt (omega arith) (omega arith) feed first
      no_trade (λ k. refl) (inl refl) refl refl (omega arith) (omega arith) refl (omega arith)
      (omega arith) (omega arith)

abbrev blank_frame : MarketUpdate
blank_frame = record {
  event_seq = 0;
  event_time = 0;
  tsc_in = 0;
  best_bid = 0;
  best_ask = 0;
  trade_price = 0;
  trade_qty = 0;
  instrument = 0;
  trade_side = buy;
  flags = 0;
  nb = 0;
  na = 0;
  bids = λ i. record { price = 0; qty = 0; order_count = 0 };
  asks = λ i. record { price = 0; qty = 0; order_count = 0 };
}

abbrev blank : BookSnapshot
blank = record {
  event_seq = 0;
  stock_id = [];
  best_bid = 0;
  best_ask = 0;
  nb = 0;
  na = 0;
  bids = λ i. record { price = 0; shares = 0; order_count = 0 };
  asks = λ i. record { price = 0; shares = 0; order_count = 0 };
}

-- Frames were lost before.
abbrev core : Core
core = record {
  feed = with_book.0;
  feed_ring = empty_ring (λ i. blank_frame);
  scratch = blank;
  stored = blank;
  frames_pushed = 0;
  frames_dropped = 2;
  pending_reset = true;
}

abbrev no_frames : List MarketUpdate
no_frames = []

abbrev resting : Resting
resting = (77, added first) ∷ []

-- Twenty of the fifty shares are executed.
abbrev execution : Event
execution = event 69 20 0
