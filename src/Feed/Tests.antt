-- ===== src/Feed/Tests.antt =====
-- A feed of one symbol, put through the theorems.
use Prim.Native.Nat.{◌∣◌}
use native.Mathlib.Nat.{dvd_of_mod-eq-zero}
use low_latency_pipeline.Prelude.{
  ℕ, ◌+◌, ◌%◌, ◌^◌, ◌≡◌, inl, refl, none, some, List, [], ◌∷◌, arith,
}
use low_latency_pipeline.Event.{Event, buy}
use low_latency_pipeline.OrderMap.{order_hash}
use low_latency_pipeline.OrderMap.Laws.{order_hash-lt}
use low_latency_pipeline.Book.{OrderBook, no_trade, fresh_book}
use low_latency_pipeline.Book.Resting.{Resting}
use low_latency_pipeline.Book.Invariant.{Holds}
use low_latency_pipeline.Book.Init.{init_fresh-Holds}
use low_latency_pipeline.Book.{init}
use low_latency_pipeline.Feed.{PrimaryFeed, Message, dispatch, apply}
use low_latency_pipeline.Feed.Orders.{added, event_orders, event_trade, dispatch-Holds}
use low_latency_pipeline.Feed.Books.{FeedHolds, replay, replay-FeedHolds, stream_orders, own_count}
use low_latency_pipeline.Feed.Opening.{first_base, opening-FeedHolds}

divides : 8 ∣ 2 ^ 32
divides = dvd_of_mod-eq-zero 8 refl

abbrev event : (message_type ref shares price : ℕ) → Event
event message_type ref shares price = record {
  message_type = message_type;
  stock_locate = 3;
  tracking_number = 0;
  timestamp = 5;
  order_ref_number = ref;
  side = buy;
  shares = shares;
  stock = 65 ∷ 66 ∷ [];
  price = price;
  match_number = 0;
  new_order_ref_number = 0;
  tsc_in = 0;
}

-- The base is 1.00, where half the window is 32 ticks below 1.32.
abbrev opened : OrderBook
opened = init (fresh_book 0 64) 3 10000

dispatch-Holds_example :
    let ev = event 65 77 50 10100 in
    (book : OrderBook) × (dispatch 64 8 order_hash Message.add opened ev no_trade
      ≡ some (book, event_trade Message.add ev no_trade []))
    × Holds 64 8 order_hash 10000 book (event_orders 64 10000 Message.add ev [])
dispatch-Holds_example =
    dispatch-Holds 64 8 order_hash 10000 divides order_hash-lt (omega arith) (omega arith)
      Message.add opened [] (event 65 77 50 10100) no_trade
      (init_fresh-Holds 0 64 8 order_hash 3 10000 (omega arith) (omega arith)) (omega arith)
      (refl, refl, omega arith, omega arith, omega arith)

abbrev feed : PrimaryFeed
feed = record {
  engine = record { books = λ k. none; spare = none };
  symbol = 65 ∷ 66 ∷ [];
  count = 0;
}

abbrev first : Event
first = event 65 77 50 13200

opening-FeedHolds_example :
    (feed' : PrimaryFeed) × (apply 0 64 8 order_hash feed first no_trade
      ≡ some (feed', some 3, no_trade))
    × FeedHolds 0 64 8 order_hash
        (first_base 64 13200)
        3
        (65 ∷ 66 ∷ [])
        feed'
        ((77, added first) ∷ [])
opening-FeedHolds_example =
    opening-FeedHolds 0 64 8 order_hash divides order_hash-lt (omega arith) (omega arith) feed first
      no_trade (λ k. refl) (inl refl) refl refl (omega arith) (omega arith) refl (omega arith)
      (omega arith) (omega arith)

-- The feed with its book.
with_book :
    (feed' : PrimaryFeed) × (apply 0 64 8 order_hash feed first no_trade
      ≡ some (feed', some 3, no_trade))
    × FeedHolds 0 64 8 order_hash
        (first_base 64 13200)
        3
        (65 ∷ 66 ∷ [])
        feed'
        ((77, added first) ∷ [])
with_book =
    opening-FeedHolds 0 64 8 order_hash divides order_hash-lt (omega arith) (omega arith) feed first
      no_trade (λ k. refl) (inl refl) refl refl (omega arith) (omega arith) refl (omega arith)
      (omega arith) (omega arith)

-- An execution of the first order, and a message for another locate.
abbrev events : List Event
events = event 69 77 20 0 ∷ record (event 68 77 0 0) { stock_locate = 4 } ∷ []

abbrev resting : Resting
resting = (77, added first) ∷ []

replay-FeedHolds_example :
    (feed' : PrimaryFeed) × (replay 0 64 8 order_hash with_book.0 events ≡ some feed')
    × FeedHolds 0 64 8 order_hash
        (first_base 64 13200)
        3
        (65 ∷ 66 ∷ [])
        feed'
        (stream_orders 64 (first_base 64 13200) 3 (65 ∷ 66 ∷ []) events resting)
    × (feed'.count % 2 ^ 64 ≡ (with_book.0.count + own_count 3 (65 ∷ 66 ∷ []) events) % 2 ^ 64)
replay-FeedHolds_example =
    replay-FeedHolds 0 64 8 order_hash (first_base 64 13200) 3 (65 ∷ 66 ∷ []) divides order_hash-lt
      (omega arith) (omega arith) with_book.0 resting events with_book.2
      (λ own. (refl, omega arith, omega arith), ((λ own. ground arith, tt)))
