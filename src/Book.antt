-- ===== src/Book.antt =====
-- src/core/core.hpp and src/core/core.cpp, `OrderBook`: the two level arrays, the order table and the top of
-- the book. The branches for Buy and for Sell are the same code on `bids_` and on `asks_`, so each
-- handler takes its array by the side. `none` is a probe of the table that never ends.
pub mod Tops
pub mod Sides
pub mod Steps
pub mod Resting
pub mod Room
pub mod Views
pub mod Own
pub mod Invariant
pub mod Spec
pub mod Handlers
pub mod Reduce
pub mod Leave
pub mod Replace
pub mod Depth
pub mod Walk
pub mod Init
mod Tests
use low_latency_pipeline.Prelude.{
  ℕ, ◌+◌, ◌-◌, ◌%◌, ◌^◌, Bool, true, false, Option, none, some, List, [], ◌∷◌, ltb, ◌==◌, ◌>>=◌,
  if◌then◌else◌, update, zero, suc,
}
use low_latency_pipeline.Event.{Side, sell, buy}
use low_latency_pipeline.Ring.{add32, sub32}
use low_latency_pipeline.OrderMap.{OrderEntry, Slot, Slots, find, insert, erase}
use low_latency_pipeline.Levels.{
  PriceLevel, PriceLevelArray, fresh_levels, init_levels, in_range, at, put, mark_occupied,
  mark_empty, next_occupied_above, prev_occupied_below,
}

-- UINT32_MAX, the best ask of an empty side.
abbrev pub no_ask : ℕ
no_ask = 2 ^ 32 - 1

pub record TopOfBook : Type 0 where
  pub best_bid : ℕ
  pub best_ask : ℕ

abbrev pub empty_top : TopOfBook
empty_top = record { best_bid = 0; best_ask = no_ask }

-- `drops` is this book's share of the counter `g_drops`.
pub record OrderBook : Type 0 where
  pub initialized : Bool
  pub tob : TopOfBook
  pub stock_id : ℕ
  pub bids : PriceLevelArray
  pub asks : PriceLevelArray
  pub orders : Slots
  pub drops : ℕ

pub record Level : Type 0 where
  pub price : ℕ
  pub shares : ℕ
  pub order_count : ℕ

pub record Trade : Type 0 where
  pub price : ℕ
  pub shares : ℕ
  pub side : Side

abbrev pub no_trade : Trade
no_trade = record { price = 0; shares = 0; side = buy }

-- `OrderBook{}`: zeros, so that every slot is free (the side 0 of an unused entry, which is neither
-- constructor, is never read; `sell` stands in its place).
abbrev pub fresh_book : (tiers max_levels : ℕ) → OrderBook
fresh_book tiers max_levels = record {
  initialized = false;
  tob = empty_top;
  stock_id = 0;
  bids = fresh_levels tiers max_levels;
  asks = fresh_levels tiers max_levels;
  orders = λ p. record {
    key = 0;
    entry = record { price = 0; shares = 0; side = sell };
    occupied = false;
  };
  drops = 0;
}

-- `bids_` and `asks_`, read and written by the side.
unfoldable pub side_levels : Side → OrderBook → PriceLevelArray
side_levels buy book = book.bids
side_levels sell book = book.asks

unfoldable pub with_levels : Side → PriceLevelArray → OrderBook → OrderBook
with_levels buy a book = record book { bids = a }
with_levels sell a book = record book { asks = a }

unfoldable pub top : Side → OrderBook → ℕ
top buy book = book.tob.best_bid
top sell book = book.tob.best_ask

unfoldable pub with_top : Side → ℕ → OrderBook → OrderBook
with_top buy price book = record book { tob = record (book.tob) { best_bid = price } }
with_top sell price book = record book { tob = record (book.tob) { best_ask = price } }

-- The top of a side after its array has lost the top level.
unfoldable pub next_top : Side → PriceLevelArray → ℕ → ℕ
next_top buy a price = prev_occupied_below a price
next_top sell a price = let next = next_occupied_above a price in if next == 0 then no_ask else next

unfoldable pub on_level_emptied : Side → ℕ → OrderBook → OrderBook
unfolding side_levels with_levels top with_top
on_level_emptied side price book =
    let a = mark_empty (side_levels side book) price in
    let cleared = with_levels side a book in
    if price == top side book then with_top side (next_top side a price) cleared else cleared

unfoldable pub init : OrderBook → (stock_id base_price : ℕ) → OrderBook
init book stock_id base_price = record book {
  stock_id = stock_id;
  tob = empty_top;
  bids = init_levels book.bids base_price;
  asks = init_levels book.asks base_price;
  initialized = true;
}

-- `price > tob_.best_bid`, `price < tob_.best_ask`.
unfoldable pub improves : Side → ℕ → ℕ → Bool
improves buy price best = ltb best price
improves sell price best = ltb price best

-- The level and the top of the book when an order comes to rest.
unfoldable pub rest_levels : PriceLevelArray → (price shares : ℕ) → PriceLevelArray
rest_levels a price shares =
    let lvl = at a price in
    let counted = put a price (record {
      total_shares = add32 lvl.total_shares shares;
      order_count = add32 lvl.order_count 1;
    }) in
    if lvl.order_count == 0 then mark_occupied counted price else counted

unfoldable pub rest : Side → (price shares : ℕ) → OrderBook → OrderBook
rest side price shares book =
    let rested = with_levels side (rest_levels (side_levels side book) price shares) book in
    if improves side price (top side book) then with_top side price rested else rested

unfoldable pub drop : OrderBook → OrderBook
drop book = record book { drops = (book.drops + 1) % 2 ^ 64 }

-- `lvl.total_shares -= shares`, `--lvl.order_count`.
unfoldable pub take_shares : Side → (price shares : ℕ) → OrderBook → OrderBook
take_shares side price shares book =
    let a = side_levels side book in
    let lvl = at a price in
    with_levels side (put a price (record lvl { total_shares = sub32 lvl.total_shares shares }))
      book

unfoldable pub count_down : Side → (price : ℕ) → OrderBook → OrderBook
count_down side price book =
    let a = side_levels side book in
    let lvl = at a price in
    with_levels side (put a price (record lvl { order_count = sub32 lvl.order_count 1 })) book

-- `if (lvl.order_count == 0) on_level_emptied(side, price)`
unfoldable pub settle : Side → (price : ℕ) → OrderBook → OrderBook
settle side price book =
    if (at (side_levels side book) price).order_count == 0
    then on_level_emptied side price book
    else book

module _ (max_levels capacity : ℕ) (hash : ℕ → ℕ) where
  unfoldable pub on_add : OrderBook → (ref : ℕ) → Side → (price shares : ℕ) → Option OrderBook
  on_add book ref side price shares =
      if in_range max_levels (side_levels side book) price
      then (do
        orders ←
            insert capacity hash book.orders ref
              (record { price = price; shares = shares; side = side })
        some (rest side price shares (record book { orders = orders })))
      else some (drop book)

  -- `--lvl.order_count; orders_.erase(ref);` and the test for a drained level.
  unfoldable pub retire : Side → (price ref : ℕ) → OrderBook → Option OrderBook
  retire side price ref book = do
    orders ← erase capacity hash book.orders ref
    some (settle side price (record (count_down side price book) { orders = orders }))

  -- `lvl.total_shares -= shares; entry->shares -= shares;` and the test for a filled order.
  unfoldable pub reduce : (p ref shares : ℕ) → OrderBook → Option OrderBook
  reduce p ref shares book =
      let slot = book.orders p in
      let entry = slot.entry in
      let left = sub32 entry.shares shares in
      let reduced = record (take_shares entry.side entry.price shares book) {
        orders = update book.orders p (record slot { entry = record entry { shares = left } });
      } in
      if left == 0 then retire entry.side entry.price ref reduced else some reduced

  unfoldable pub on_execute : OrderBook → (ref executed_shares : ℕ) → Option (OrderBook × Trade)
  on_execute book ref executed_shares = do
    found ← find capacity hash book.orders ref
    elim found [
      | none ↦ some (book, no_trade)
      | some p ↦
          let entry = (book.orders p).entry in
          do
            after ← reduce p ref executed_shares book
            some
                (after, record { price = entry.price; shares = executed_shares; side = entry.side })
    ]

  unfoldable pub on_execute_with_price :
      OrderBook → (ref executed_shares execution_price : ℕ) → Option (OrderBook × Trade)
  on_execute_with_price book ref executed_shares execution_price = do
    (after, t) ← on_execute book ref executed_shares
    some (after, if t.shares == 0 then t else record t { price = execution_price })

  unfoldable pub on_cancel : OrderBook → (ref cancelled_shares : ℕ) → Option OrderBook
  on_cancel book ref cancelled_shares = do
    found ← find capacity hash book.orders ref
    elim found [ none ↦ some book | some p ↦ reduce p ref cancelled_shares book ]

  unfoldable pub on_delete : OrderBook → (ref : ℕ) → Option OrderBook
  on_delete book ref = do
    found ← find capacity hash book.orders ref
    elim found [
      | none ↦ some book
      | some p ↦
          let entry = (book.orders p).entry in
          retire entry.side entry.price ref (take_shares entry.side entry.price entry.shares book)
    ]

  unfoldable pub on_replace :
      OrderBook → (old_ref new_ref new_price new_shares : ℕ) → Option OrderBook
  on_replace book old_ref new_ref new_price new_shares = do
    found ← find capacity hash book.orders old_ref
    elim found [
      | none ↦ some book
      | some p ↦
          let entry = (book.orders p).entry in
          let left =
            count_down entry.side entry.price
              (take_shares entry.side entry.price entry.shares book) in
          do
            orders ← erase capacity hash left.orders old_ref
            moved ← on_add (record left { orders = orders }) new_ref entry.side new_price new_shares
            some (settle entry.side entry.price moved)
    ]

-- The walks from the top of the book, at most `max_out` levels.
unfoldable pub walk : Side → PriceLevelArray → (price max_out : ℕ) → List Level
walk side a price zero = []
walk side a price (suc max_out) =
    let lvl = at a price in
    let others = walk side a (next_top side a price) max_out in
    let here : Level = record {
      price = price;
      shares = lvl.total_shares;
      order_count = lvl.order_count;
    } in
    elim side [
      | buy ↦ if price == 0 then [] else here ∷ others
      | sell ↦ if price == no_ask then [] else here ∷ others
    ]

unfoldable pub top_bids : OrderBook → ℕ → List Level
top_bids book max_out = walk buy book.bids book.tob.best_bid max_out

unfoldable pub top_asks : OrderBook → ℕ → List Level
top_asks book max_out = walk sell book.asks book.tob.best_ask max_out

unfoldable pub qty_at_bid : OrderBook → ℕ → ℕ
qty_at_bid book p = (at book.bids p).total_shares

unfoldable pub qty_at_ask : OrderBook → ℕ → ℕ
qty_at_ask book p = (at book.asks p).total_shares
