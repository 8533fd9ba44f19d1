-- ===== src/Feed/Orders.antt =====
-- What an event does to the list of resting orders, and that the book follows.
use Prim.Native.Nat.{◌∣◌}
use low_latency_pipeline.Prelude.{
  ℕ, ◌%◌, ◌^◌, ◌<◌, ◌≡◌, refl, none, some, ◌==◌, if◌then◌else◌, length, List, [], ◌∷◌, arith,
}
use low_latency_pipeline.Event.{Event, buy}
use low_latency_pipeline.Ring.{u32_mod}
use low_latency_pipeline.OrderMap.{OrderEntry}
use low_latency_pipeline.Levels.{price_tick}
use low_latency_pipeline.Book.{OrderBook, Trade}
use low_latency_pipeline.Book.Resting.{Resting, lookup, remove}
use low_latency_pipeline.Book.Spec.{rest_order, reduce_order, traded, replace_order}
use low_latency_pipeline.Book.Invariant.{Holds, no_hole}
use low_latency_pipeline.Book.Handlers.{on_add-Holds}
use low_latency_pipeline.Book.Leave.{
  on_execute-Holds, on_execute_with_price-Holds, on_cancel-Holds, on_delete-Holds,
}
use low_latency_pipeline.Book.Replace.{on_replace-Holds}
use low_latency_pipeline.Feed.{Message, message_of, dispatch}

-- The letters of ITCH, A and F, E, C, X, D, U, P and Q, with what a message of the letter is.
abbrev letters : List (ℕ × Message)
letters =
    (0x41, Message.add)
    ∷ (0x46, Message.add)
    ∷ (0x45, Message.execute)
    ∷ (0x43, Message.execute_with_price)
    ∷ (0x58, Message.cancel)
    ∷ (0x44, Message.delete)
    ∷ (0x55, Message.replace)
    ∷ (0x50, Message.hidden)
    ∷ (0x51, Message.cross)
    ∷ []

abbrev kind_in : List (ℕ × Message) → (letter : ℕ) → Message
kind_in [] letter = Message.other
kind_in (known ∷ more) letter = if letter == known.0 then known.1 else kind_in more letter

-- What an event is, by its letter.
abbrev pub kind : Event → Message
kind ev = kind_in letters ev.message_type

pub message_of-kind : (ev : Event) → message_of ev.message_type ≡ kind ev
unfolding message_of
message_of-kind ev = ground arith

-- The order that an A or F message brings.
abbrev pub added : Event → OrderEntry
added ev = record { price = ev.price; shares = ev.shares; side = ev.side }

-- The resting orders after an event.
abbrev pub event_orders : (max_levels base : ℕ) → Message → Event → Resting → Resting
event_orders max_levels base Message.add ev q =
    rest_order max_levels base ev.order_ref_number (added ev) q
event_orders max_levels base Message.execute ev q = reduce_order ev.order_ref_number ev.shares q
event_orders max_levels base Message.execute_with_price ev q =
    reduce_order ev.order_ref_number ev.shares q
event_orders max_levels base Message.cancel ev q = reduce_order ev.order_ref_number ev.shares q
event_orders max_levels base Message.delete ev q = remove ev.order_ref_number q
event_orders max_levels base Message.replace ev q =
    replace_order max_levels base ev.order_ref_number ev.new_order_ref_number ev.price ev.shares q
event_orders max_levels base Message.hidden ev q = q
event_orders max_levels base Message.cross ev q = q
event_orders max_levels base Message.other ev q = q

-- The trade after an event, where it was `before`.
abbrev pub event_trade : Message → Event → (before : Trade) → Resting → Trade
event_trade Message.add ev before q = before
event_trade Message.execute ev before q = traded ev.order_ref_number ev.shares q
event_trade Message.execute_with_price ev before q =
    let t = traded ev.order_ref_number ev.shares q in
    if t.shares == 0 then t else record t { price = ev.price }
event_trade Message.cancel ev before q = before
event_trade Message.delete ev before q = before
event_trade Message.replace ev before q = before
event_trade Message.hidden ev before q = record {
  price = ev.price;
  shares = ev.shares;
  side = ev.side;
}
event_trade Message.cross ev before q = record { price = ev.price; shares = ev.shares; side = buy }
event_trade Message.other ev before q = before

-- What the exchange promises of an event: shares and prices are uint32_t, a price is above 0 and
-- on the tick, and a new reference is not that of an order that rests.
abbrev pub IsFit : Message → Event → Resting → Type 0
IsFit Message.add ev q =
    (lookup q ev.order_ref_number ≡ none)
    × (ev.price % price_tick ≡ 0)
    × (0 < ev.price)
    × (ev.price < u32_mod)
    × (ev.shares < u32_mod)
IsFit Message.execute ev q = ev.shares < u32_mod
IsFit Message.execute_with_price ev q = ev.shares < u32_mod
IsFit Message.cancel ev q = ev.shares < u32_mod
IsFit Message.delete ev q = Unit {0}
IsFit Message.replace ev q =
    (lookup (remove ev.order_ref_number q) ev.new_order_ref_number ≡ none)
    × (ev.price % price_tick ≡ 0)
    × (0 < ev.price)
    × (ev.price < u32_mod)
    × (ev.shares < u32_mod)
IsFit Message.hidden ev q = Unit {0}
IsFit Message.cross ev q = Unit {0}
IsFit Message.other ev q = Unit {0}

module _ (max_levels capacity : ℕ) (hash : ℕ → ℕ) (base : ℕ) (divides : capacity ∣ 2 ^ 32)
    (hash_lt : (k : ℕ) → hash k < 2 ^ 32) (pos : 0 < capacity) (bounded : capacity < 2 ^ 32) where
  -- A book that stands for fewer orders than the table has slots and an event as the exchange
  -- sends them, of any type: the switch ends, the book stands for the orders after the event, and
  -- the trade is that of the event.
  pub dispatch-Holds :
      (m : Message) (book : OrderBook) (q : Resting) (ev : Event) (trade : Trade)
      → Holds max_levels capacity hash base book q
      → length q < capacity
      → IsFit m ev q
      → (book' : OrderBook) × (dispatch max_levels capacity hash m book ev trade
          ≡ some (book', event_trade m ev trade q))
        × Holds max_levels capacity hash base book' (event_orders max_levels base m ev q)
  unfolding dispatch
  dispatch-Holds Message.add book q ev trade h few fit =
      let (book', run, done) =
        on_add-Holds max_levels capacity hash base divides hash_lt pos bounded (no_hole max_levels)
          book q ev.order_ref_number (added ev) h few fit.0 fit.1 fit.2 fit.3 fit.4 in
      (book', rw run refl, done)
  dispatch-Holds Message.execute book q ev trade h few fit =
      on_execute-Holds max_levels capacity hash base divides hash_lt pos bounded book q h few
        ev.order_ref_number ev.shares fit
  dispatch-Holds Message.execute_with_price book q ev trade h few fit =
      on_execute_with_price-Holds max_levels capacity hash base divides hash_lt pos bounded book q h
        few ev.order_ref_number ev.shares ev.price fit
  dispatch-Holds Message.cancel book q ev trade h few fit =
      let (book', run, done) =
        on_cancel-Holds max_levels capacity hash base divides hash_lt pos bounded book q h few
          ev.order_ref_number ev.shares fit in
      (book', rw run refl, done)
  dispatch-Holds Message.delete book q ev trade h few fit =
      let (book', run, done) =
        on_delete-Holds max_levels capacity hash base divides hash_lt pos bounded book q h few
          ev.order_ref_number in
      (book', rw run refl, done)
  dispatch-Holds Message.replace book q ev trade h few fit =
      let (book', run, done) =
        on_replace-Holds max_levels capacity hash base divides hash_lt pos bounded book q
          ev.order_ref_number ev.new_order_ref_number ev.price ev.shares h few fit.0 fit.1 fit.2
          fit.3 fit.4 in
      (book', rw run refl, done)
  dispatch-Holds Message.hidden book q ev trade h few fit = (book, refl, h)
  dispatch-Holds Message.cross book q ev trade h few fit = (book, refl, h)
  dispatch-Holds Message.other book q ev trade h few fit = (book, refl, h)
