-- ===== src/Book/Tests.antt =====
-- A book of 64 levels over a table of eight slots, run and put through the theorems.
use Prim.Native.Nat.{◌∣◌}
use native.Mathlib.Nat.{dvd_of_mod-eq-zero}
use low_latency_pipeline.Prelude.{
  ℕ, ◌^◌, ◌≡◌, refl, Option, some, List, [], ◌∷◌, arith, ◌>>=◌, ◌==◌, if◌then◌else◌,
}
use low_latency_pipeline.Event.{sell, buy}
use low_latency_pipeline.OrderMap.{OrderEntry, order_hash}
use low_latency_pipeline.OrderMap.Laws.{order_hash-lt}
use low_latency_pipeline.Book.{
  OrderBook, Level, Trade, fresh_book, init, on_add, on_execute, on_execute_with_price, on_cancel,
  on_delete, on_replace, top_bids, top_asks, top,
}
use low_latency_pipeline.Book.{
  reduce, retire, settle, rest, rest_levels, improves, on_level_emptied, next_top, side_levels,
  with_levels, with_top, take_shares, count_down, walk, drop,
}
use low_latency_pipeline.Levels.{
  init_levels, fresh_levels, index_of, in_range, at, put, mark_occupied, mark_empty, price_at,
  next_occupied_above, prev_occupied_below,
}
use low_latency_pipeline.Bitmap.{
  fresh, reset, set_bit, clear_bit, set, clear, from_bit, upto_bit, join, next_set, prev_set,
}
use low_latency_pipeline.Bits.{shl, complement}
use low_latency_pipeline.Bits.Scan.{ctz, clz}
use low_latency_pipeline.OrderMap.{
  masked_sub, find, find_from, insert, insert_from, erase, locate_from, shift_from,
}
use low_latency_pipeline.Book.Resting.{Resting, remove}
use low_latency_pipeline.Book.Invariant.{Holds, no_hole}
use low_latency_pipeline.Book.Spec.{reduce_order, traded, replace_order}
use low_latency_pipeline.Book.Init.{init-Holds, init_fresh-Holds, fresh_levels-IsValid}
use low_latency_pipeline.Bitmap.Member.{IsValid, fresh-IsValid}
use low_latency_pipeline.Bitmap.Update.{set-IsValid}
use low_latency_pipeline.Book.Handlers.{on_add-Holds}
use low_latency_pipeline.Book.Leave.{
  on_execute-Holds, on_execute_with_price-Holds, on_cancel-Holds, on_delete-Holds,
}
use low_latency_pipeline.Book.Replace.{on_replace-Holds}
use low_latency_pipeline.Book.Depth.{no_limit}
use low_latency_pipeline.Book.Walk.{IsDepth, top_bids-IsDepth}

divides : 8 ∣ 2 ^ 32
divides = dvd_of_mod-eq-zero 8 refl

-- The base price is 1.0050 and is rounded down to 1.00.
abbrev opened : OrderBook
opened = init (fresh_book 0 64) 7 10050

-- A book with a level, a bit and a top of days before.
abbrev used : OrderBook
used = record (fresh_book 0 64) {
  tob = record { best_bid = 10100; best_ask = 10200 };
  bids = record {
    base_price = 9000;
    levels = λ i. record { total_shares = 50; order_count = i };
    occupied = set (fresh 0 64) 11;
  };
}

init-Holds_example : Holds 64 8 order_hash 10000 (init used 7 10050) []
init-Holds_example =
    let clear : IsValid 64 (fresh 0 64) = fresh-IsValid 0 64 (omega arith) in
    init-Holds 64 8 order_hash used 7 10050 (set-IsValid 64 (fresh 0 64) 11 clear (omega arith))
      (fresh_levels-IsValid 0 64 (omega arith)) (λ p. refl) (omega arith)

abbrev bid : OrderEntry
bid = record { price = 10100; shares = 50; side = buy }

on_add-Holds_example :
    (book : OrderBook) × (on_add 64 8 order_hash opened 77 buy 10100 50 ≡ some book)
    × Holds 64 8 order_hash 10000 book ((77, bid) ∷ [])
on_add-Holds_example =
    on_add-Holds 64 8 order_hash 10000 divides order_hash-lt (omega arith) (omega arith)
      (no_hole 64) opened [] 77 bid
      (init_fresh-Holds 0 64 8 order_hash 7 10050 (omega arith) (omega arith)) (omega arith) refl
      refl (omega arith) (omega arith) (omega arith)

-- The book with one bid.
opened-Holds : Holds 64 8 order_hash 10000 opened []
opened-Holds = init_fresh-Holds 0 64 8 order_hash 7 10050 (omega arith) (omega arith)

one_bid :
    (book : OrderBook) × (on_add 64 8 order_hash opened 77 buy 10100 50 ≡ some book)
    × Holds 64 8 order_hash 10000 book ((77, bid) ∷ [])
one_bid =
    on_add-Holds 64 8 order_hash 10000 divides order_hash-lt (omega arith) (omega arith)
      (no_hole 64) opened [] 77 bid opened-Holds (omega arith) refl refl (omega arith) (omega arith)
      (omega arith)

abbrev bids : Resting
bids = (77, bid) ∷ []

on_execute-Holds_example :
    (book : OrderBook) × (on_execute 64 8 order_hash one_bid.0 77 20
      ≡ some (book, traded 77 20 bids))
    × Holds 64 8 order_hash 10000 book (reduce_order 77 20 bids)
on_execute-Holds_example =
    on_execute-Holds 64 8 order_hash 10000 divides order_hash-lt (omega arith) (omega arith)
      one_bid.0 bids one_bid.2 (omega arith) 77 20 (omega arith)

on_execute_with_price-Holds_example :
    let t = traded 77 50 bids in
    (book : OrderBook) × (on_execute_with_price 64 8 order_hash one_bid.0 77 50 10000
      ≡ some (book, if t.shares == 0 then t else record t { price = 10000 }))
    × Holds 64 8 order_hash 10000 book (reduce_order 77 50 bids)
on_execute_with_price-Holds_example =
    on_execute_with_price-Holds 64 8 order_hash 10000 divides order_hash-lt (omega arith)
      (omega arith) one_bid.0 bids one_bid.2 (omega arith) 77 50 10000 (omega arith)

on_cancel-Holds_example :
    (book : OrderBook) × (on_cancel 64 8 order_hash one_bid.0 77 50 ≡ some book)
    × Holds 64 8 order_hash 10000 book (reduce_order 77 50 bids)
on_cancel-Holds_example =
    on_cancel-Holds 64 8 order_hash 10000 divides order_hash-lt (omega arith) (omega arith)
      one_bid.0 bids one_bid.2 (omega arith) 77 50 (omega arith)

on_delete-Holds_example :
    (book : OrderBook) × (on_delete 64 8 order_hash one_bid.0 77 ≡ some book)
    × Holds 64 8 order_hash 10000 book (remove 77 bids)
on_delete-Holds_example =
    on_delete-Holds 64 8 order_hash 10000 divides order_hash-lt (omega arith) (omega arith)
      one_bid.0 bids one_bid.2 (omega arith) 77

on_replace-Holds_example :
    (book : OrderBook) × (on_replace 64 8 order_hash one_bid.0 77 78 10300 30 ≡ some book)
    × Holds 64 8 order_hash 10000 book (replace_order 64 10000 77 78 10300 30 bids)
on_replace-Holds_example =
    on_replace-Holds 64 8 order_hash 10000 divides order_hash-lt (omega arith) (omega arith)
      one_bid.0 bids 77 78 10300 30 one_bid.2 (omega arith) refl refl (omega arith) (omega arith)
      (omega arith)

top_bids-IsDepth_example : IsDepth buy bids (no_limit buy) 10 (top_bids one_bid.0 10)
top_bids-IsDepth_example = top_bids-IsDepth 64 8 order_hash 10000 one_bid.2 10

-- Two bids and an ask; the upper bid is cancelled away, the ask is replaced, the lower bid is hit.
abbrev session : Option (List Level × List Level × Trade)
session = do
  a ← on_add 64 8 order_hash opened 1 buy 10200 50
  b ← on_add 64 8 order_hash a 2 buy 10100 40
  c ← on_add 64 8 order_hash b 3 sell 10500 30
  d ← on_cancel 64 8 order_hash c 1 50
  e ← on_replace 64 8 order_hash d 3 4 10400 25
  (f, t) ← on_execute 64 8 order_hash e 2 15
  some (top_bids f 10, top_asks f 10, t)

session_runs :
    session
    ≡ some (
      (record { price = 10100; shares = 25; order_count = 1 }) ∷ [],
      (record { price = 10400; shares = 25; order_count = 1 }) ∷ [],
      record { price = 10100; shares = 15; side = buy },
    )
unfolding on_add on_execute on_cancel on_replace reduce retire settle rest rest_levels improves
    on_level_emptied next_top side_levels with_levels top with_top take_shares count_down init walk
    top_bids top_asks drop init_levels fresh_levels index_of in_range at put mark_occupied
    mark_empty price_at next_occupied_above prev_occupied_below fresh reset set_bit clear_bit set
    clear from_bit upto_bit join next_set prev_set shl complement ctz clz order_hash masked_sub find
    find_from insert insert_from erase locate_from shift_from
session_runs = refl

-- Two bids within one tick share a level: after both are deleted the best bid is still the price of
-- the first, with no order in the book.
abbrev off_tick : Option (ℕ × ℕ)
off_tick = do
  a ← on_add 64 8 order_hash opened 1 buy 10150 50
  b ← on_add 64 8 order_hash a 2 buy 10100 40
  c ← on_delete 64 8 order_hash b 1
  d ← on_delete 64 8 order_hash c 2
  some (d.tob.best_bid, (at d.bids 10100).order_count)

off_tick_runs : off_tick ≡ some (10150, 0)
unfolding on_add on_delete retire settle rest rest_levels improves on_level_emptied next_top
    side_levels with_levels top with_top take_shares count_down init drop init_levels fresh_levels
    index_of in_range at put mark_occupied mark_empty price_at next_occupied_above
    prev_occupied_below fresh reset set_bit clear_bit set clear from_bit upto_bit join next_set
    prev_set shl complement ctz clz order_hash masked_sub find find_from insert insert_from erase
    locate_from shift_from
off_tick_runs = refl
