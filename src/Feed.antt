-- ===== src/Feed.antt =====
-- src/core/core.hpp and src/core/core.cpp, `BookArray`, and src/core/primary_feed.hpp, `PrimaryFeed`: the books by
-- stock locate, and the dispatch of ITCH events to the book of one symbol.
pub mod Orders
pub mod Books
pub mod Opening
mod Tests
use low_latency_pipeline.Prelude.{
  ℕ, ◌+◌, ◌-◌, ◌*◌, ◌/◌, ◌%◌, ◌^◌, Bool, true, false, ◌&&◌, ◌||◌, not, Option, none, some, List, [],
  ◌∷◌, ltb, ◌==◌, if◌then◌else◌, update, ◌>>=◌,
}
use low_latency_pipeline.Event.{Event, buy}
use low_latency_pipeline.Levels.{price_tick}
use low_latency_pipeline.Book.{
  OrderBook, Trade, fresh_book, init, on_add, on_execute, on_execute_with_price, on_cancel,
  on_delete, on_replace,
}

-- A unique_ptr is its book, or none.
pub record BookArray : Type 0 where
  pub books : ℕ → Option OrderBook
  pub spare : Option OrderBook

-- `memcmp(a, b, 8) == 0`
unfoldable pub same_bytes : List ℕ → List ℕ → Bool
same_bytes [] [] = true
same_bytes [] (y ∷ ys) = false
same_bytes (x ∷ xs) [] = false
same_bytes (x ∷ xs) (y ∷ ys) = (x == y) && same_bytes xs ys

-- The cases of the switch on `message_type`.
pub data Message : Type 0 where
  add execute execute_with_price cancel delete replace hidden cross other : Message

unfoldable pub message_of : (message_type : ℕ) → Message
message_of message_type =
    if (message_type == 65) || (message_type == 70)
    then Message.add
    else if message_type == 69
    then Message.execute
    else if message_type == 67
    then Message.execute_with_price
    else if message_type == 88
    then Message.cancel
    else if message_type == 68
    then Message.delete
    else if message_type == 85
    then Message.replace
    else if message_type == 80
    then Message.hidden
    else if message_type == 81
    then Message.cross
    else Message.other

-- `count` counts the events that were applied.
pub record PrimaryFeed : Type 0 where
  pub engine : BookArray
  pub symbol : List ℕ
  pub count : ℕ

-- Half the window below the first price, or 0.
unfoldable pub seed_base : (max_levels price : ℕ) → ℕ
seed_base max_levels price =
    let half = max_levels / 2 * price_tick in if ltb half price then price - half else 0

module _ (tiers max_levels : ℕ) where
  -- `make_unique<OrderBook>()`
  abbrev pub new_book : OrderBook
  new_book = fresh_book tiers max_levels

  unfoldable pub prewarm : BookArray → BookArray
  prewarm engine = elim engine.spare [
    | none ↦ record engine { spare = some new_book }
    | some book ↦ engine
  ]

  -- The book of the locate, and the array that has it.
  unfoldable pub ensure : BookArray → (locate stock_id base_price : ℕ) → BookArray × OrderBook
  ensure engine locate stock_id base_price = elim (engine.books locate) [
    | some book ↦ (engine, book)
    | none ↦
        let taken : OrderBook = elim engine.spare [ none ↦ new_book | some book ↦ book ] in
        let book = init taken stock_id base_price in
        (record { books = update engine.books locate (some book); spare = none }, book)
  ]

module _ (max_levels capacity : ℕ) (hash : ℕ → ℕ) where
  -- The switch: the book and the trade after the event.
  unfoldable pub dispatch : Message → OrderBook → Event → Trade → Option (OrderBook × Trade)
  dispatch Message.add book ev trade = do
    after ← on_add max_levels capacity hash book ev.order_ref_number ev.side ev.price ev.shares
    some (after, trade)
  dispatch Message.execute book ev trade =
      on_execute max_levels capacity hash book ev.order_ref_number ev.shares
  dispatch Message.execute_with_price book ev trade =
      on_execute_with_price max_levels capacity hash book ev.order_ref_number ev.shares ev.price
  dispatch Message.cancel book ev trade = do
    after ← on_cancel max_levels capacity hash book ev.order_ref_number ev.shares
    some (after, trade)
  dispatch Message.delete book ev trade = do
    after ← on_delete max_levels capacity hash book ev.order_ref_number
    some (after, trade)
  dispatch Message.replace book ev trade = do
    after ←
        on_replace max_levels capacity hash book ev.order_ref_number ev.new_order_ref_number
          ev.price ev.shares
    some (after, trade)
  dispatch Message.hidden book ev trade =
      some (book, record { price = ev.price; shares = ev.shares; side = ev.side })
  dispatch Message.cross book ev trade =
      some (book, record { price = ev.price; shares = ev.shares; side = buy })
  dispatch Message.other book ev trade = some (book, trade)

  -- The event on the book of its locate in `engine`.
  unfoldable pub apply_to :
      PrimaryFeed → BookArray → OrderBook → Event → Trade → Option (PrimaryFeed × Option ℕ × Trade)
  apply_to feed engine book ev trade = do
    (after, t) ← dispatch (message_of ev.message_type) book ev trade
    some (
      record feed {
        engine = record engine { books = update engine.books ev.stock_locate (some after) };
        count = (feed.count + 1) % 2 ^ 64;
      },
      some ev.stock_locate,
      t,
    )

module _ (tiers max_levels capacity : ℕ) (hash : ℕ → ℕ) where
  -- The feed, the locate of the book that the event touched or none, and the trade, which the
  -- caller passes in.
  unfoldable pub apply : PrimaryFeed → Event → Trade → Option (PrimaryFeed × Option ℕ × Trade)
  apply feed ev trade =
      if (ev.message_type == 65) || (ev.message_type == 70)
      then (let (engine, book) =
            ensure tiers max_levels feed.engine ev.stock_locate ev.stock_locate
              (seed_base max_levels ev.price) in
          if same_bytes ev.stock feed.symbol
          then apply_to max_levels capacity hash feed engine book ev trade
          else some (feed, none, trade))
      else elim (feed.engine.books ev.stock_locate) [
        | none ↦ some (feed, none, trade)
        | some book ↦ apply_to max_levels capacity hash feed feed.engine book ev trade
      ]
