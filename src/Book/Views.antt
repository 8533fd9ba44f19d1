-- ===== src/Book/Views.antt =====
-- What each step of the handlers leaves of either side and of the order table.
use low_latency_pipeline.Prelude.{
  ℕ, ◌≡◌, refl, ◌∙◌, Bool, true, false, ◌==◌, if◌then◌else◌, Bool-cases, inl, inr,
}
use low_latency_pipeline.Event.{Side, sell, buy}
use low_latency_pipeline.Ring.{sub32}
use low_latency_pipeline.OrderMap.{Slots}
use low_latency_pipeline.Levels.{PriceLevelArray, at, put, mark_empty}
use low_latency_pipeline.Book.{
  OrderBook, side_levels, with_levels, top, with_top, improves, rest_levels, rest, take_shares,
  count_down, on_level_emptied, settle, next_top, drop,
}
use low_latency_pipeline.Book.Resting.{same_side}

-- The sides but `side` are the same in both books.
abbrev pub Agrees : Side → (book book' : OrderBook) → Type 0
Agrees side book book' =
    (s : Side)
    → same_side s side ≡ false
    → (side_levels s book' ≡ side_levels s book) × (top s book' ≡ top s book)

pub Agrees-refl : (side : Side) (book : OrderBook) → Agrees side book book
Agrees-refl side book s n = (refl, refl)

pub Agrees-trans :
    (side : Side) (a b c : OrderBook) → Agrees side a b → Agrees side b c → Agrees side a c
Agrees-trans side a b c ab bc s n = ((bc s n).0 ∙ (ab s n).0, (bc s n).1 ∙ (ab s n).1)

-- A side that was put in place is read back, with the top and the table of before.
pub side_levels-with_levels :
    (side : Side) (a : PriceLevelArray) (book : OrderBook)
    → side_levels side (with_levels side a book) ≡ a
unfolding side_levels with_levels
side_levels-with_levels buy a book = refl
side_levels-with_levels sell a book = refl

pub top-with_levels :
    (s side : Side) (a : PriceLevelArray) (book : OrderBook)
    → top s (with_levels side a book) ≡ top s book
unfolding top with_levels
top-with_levels buy buy a book = refl
top-with_levels buy sell a book = refl
top-with_levels sell buy a book = refl
top-with_levels sell sell a book = refl

pub orders-with_levels :
    (side : Side) (a : PriceLevelArray) (book : OrderBook)
    → (with_levels side a book).orders ≡ book.orders
unfolding with_levels
orders-with_levels buy a book = refl
orders-with_levels sell a book = refl

pub with_levels-Agrees :
    (side : Side) (a : PriceLevelArray) (book : OrderBook)
    → Agrees side book (with_levels side a book)
unfolding side_levels top with_levels
with_levels-Agrees buy a book buy n = cc
with_levels-Agrees buy a book sell n = (refl, refl)
with_levels-Agrees sell a book buy n = (refl, refl)
with_levels-Agrees sell a book sell n = cc

pub side_levels-with_top :
    (s side : Side) (price : ℕ) (book : OrderBook)
    → side_levels s (with_top side price book) ≡ side_levels s book
unfolding side_levels with_top
side_levels-with_top buy buy price book = refl
side_levels-with_top buy sell price book = refl
side_levels-with_top sell buy price book = refl
side_levels-with_top sell sell price book = refl

pub top-with_top :
    (side : Side) (price : ℕ) (book : OrderBook) → top side (with_top side price book) ≡ price
unfolding top with_top
top-with_top buy price book = refl
top-with_top sell price book = refl

pub orders-with_top :
    (side : Side) (price : ℕ) (book : OrderBook) → (with_top side price book).orders ≡ book.orders
unfolding with_top
orders-with_top buy price book = refl
orders-with_top sell price book = refl

pub with_top-Agrees :
    (side : Side) (price : ℕ) (book : OrderBook) → Agrees side book (with_top side price book)
unfolding side_levels top with_top
with_top-Agrees buy price book buy n = cc
with_top-Agrees buy price book sell n = (refl, refl)
with_top-Agrees sell price book buy n = (refl, refl)
with_top-Agrees sell price book sell n = cc

-- The table plays no part in the sides.
pub side_levels-orders :
    (s : Side) (orders : Slots) (book : OrderBook)
    → side_levels s (record book { orders = orders }) ≡ side_levels s book
unfolding side_levels
side_levels-orders buy orders book = refl
side_levels-orders sell orders book = refl

pub top-orders :
    (s : Side) (orders : Slots) (book : OrderBook)
    → top s (record book { orders = orders }) ≡ top s book
unfolding top
top-orders buy orders book = refl
top-orders sell orders book = refl

-- `rest` and `on_level_emptied` write the array, and then the top if a test holds.
abbrev pub written : Side → PriceLevelArray → Bool → (price : ℕ) → OrderBook → OrderBook
written side a moves price book =
    if moves then with_top side price (with_levels side a book) else with_levels side a book

pub side_levels-written :
    (side : Side) (a : PriceLevelArray) (moves : Bool) (price : ℕ) (book : OrderBook)
    → side_levels side (written side a moves price book) ≡ a
side_levels-written side a true price book =
    rw (side_levels-with_top side side price (with_levels side a book))
      (side_levels-with_levels side a book)
side_levels-written side a false price book = side_levels-with_levels side a book

pub top-written :
    (side : Side) (a : PriceLevelArray) (moves : Bool) (price : ℕ) (book : OrderBook)
    → top side (written side a moves price book) ≡ (if moves then price else top side book)
top-written side a true price book = top-with_top side price (with_levels side a book)
top-written side a false price book = top-with_levels side side a book

pub orders-written :
    (side : Side) (a : PriceLevelArray) (moves : Bool) (price : ℕ) (book : OrderBook)
    → (written side a moves price book).orders ≡ book.orders
orders-written side a true price book =
    rw (orders-with_top side price (with_levels side a book)) (orders-with_levels side a book)
orders-written side a false price book = orders-with_levels side a book

pub written-Agrees :
    (side : Side) (a : PriceLevelArray) (moves : Bool) (price : ℕ) (book : OrderBook)
    → Agrees side book (written side a moves price book)
written-Agrees side a true price book =
    Agrees-trans side book (with_levels side a book) _ (with_levels-Agrees side a book)
      (with_top-Agrees side price (with_levels side a book))
written-Agrees side a false price book = with_levels-Agrees side a book

pub rest-written :
    (side : Side) (price shares : ℕ) (book : OrderBook)
    → rest side price shares book
      ≡ written side
          (rest_levels (side_levels side book) price shares)
          (improves side price (top side book))
          price
          book
unfolding rest
rest-written side price shares book = refl

pub emptied-written :
    (side : Side) (price : ℕ) (book : OrderBook)
    → let a = mark_empty (side_levels side book) price in
      on_level_emptied side price book
      ≡ written side a (price == top side book) (next_top side a price) book
unfolding on_level_emptied
emptied-written side price book = refl

pub take_shares-written :
    (side : Side) (price shares : ℕ) (book : OrderBook)
    → let a = side_levels side book in
      let lvl = at a price in
      take_shares side price shares book
      ≡ with_levels side
          (put a price (record lvl { total_shares = sub32 lvl.total_shares shares }))
          book
unfolding take_shares
take_shares-written side price shares book = refl

pub count_down-written :
    (side : Side) (price : ℕ) (book : OrderBook)
    → let a = side_levels side book in
      let lvl = at a price in
      count_down side price book
      ≡ with_levels side (put a price (record lvl { order_count = sub32 lvl.order_count 1 })) book
unfolding count_down
count_down-written side price book = refl

pub orders-Agrees :
    (side : Side) (orders : Slots) (book : OrderBook)
    → Agrees side book (record book { orders = orders })
orders-Agrees side orders book s n = (side_levels-orders s orders book, top-orders s orders book)

pub rest-Agrees :
    (side : Side) (price shares : ℕ) (book : OrderBook)
    → Agrees side book (rest side price shares book)
rest-Agrees side price shares book =
    rw (rest-written side price shares book) (written-Agrees side _ _ price book)

pub orders-rest :
    (side : Side) (price shares : ℕ) (book : OrderBook)
    → (rest side price shares book).orders ≡ book.orders
orders-rest side price shares book =
    rw (rest-written side price shares book) (orders-written side _ _ price book)

pub count_down-Agrees :
    (side : Side) (price : ℕ) (book : OrderBook) → Agrees side book (count_down side price book)
unfolding count_down
count_down-Agrees side price book = with_levels-Agrees side _ book

pub orders-count_down :
    (side : Side) (price : ℕ) (book : OrderBook) → (count_down side price book).orders ≡ book.orders
unfolding count_down
orders-count_down side price book = orders-with_levels side _ book

pub take_shares-Agrees :
    (side : Side) (price shares : ℕ) (book : OrderBook)
    → Agrees side book (take_shares side price shares book)
unfolding take_shares
take_shares-Agrees side price shares book = with_levels-Agrees side _ book

pub orders-take_shares :
    (side : Side) (price shares : ℕ) (book : OrderBook)
    → (take_shares side price shares book).orders ≡ book.orders
unfolding take_shares
orders-take_shares side price shares book = orders-with_levels side _ book

pub settle-Agrees :
    (side : Side) (price : ℕ) (book : OrderBook) → Agrees side book (settle side price book)
unfolding settle
settle-Agrees side price book =
    elim (Bool-cases ((at (side_levels side book) price).order_count == 0)) [
      | inl z ↦ rw (z, emptied-written side price book) (written-Agrees side _ _ _ book)
      | inr n ↦ rw n (Agrees-refl side book)
    ]

pub orders-settle :
    (side : Side) (price : ℕ) (book : OrderBook) → (settle side price book).orders ≡ book.orders
unfolding settle
orders-settle side price book =
    elim (Bool-cases ((at (side_levels side book) price).order_count == 0)) [
      | inl z ↦ rw (z, emptied-written side price book) (orders-written side _ _ _ book)
      | inr n ↦ rw n refl
    ]

-- A dropped order shows in the counter alone.
pub drop-views :
    (s : Side) (book : OrderBook)
    → (side_levels s (drop book) ≡ side_levels s book) × (top s (drop book) ≡ top s book)
unfolding side_levels top drop
drop-views buy book = (refl, refl)
drop-views sell book = (refl, refl)

pub orders-drop : (book : OrderBook) → (drop book).orders ≡ book.orders
unfolding drop
orders-drop book = refl
