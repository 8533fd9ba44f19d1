-- ===== src/Book/Init.antt =====
-- A book that `init` has set up stands for no orders.
use low_latency_pipeline.Prelude.{
  ℕ, suc, ◌+◌, ◌*◌, ◌/◌, ◌^◌, ◌≤◌, ◌≡◌, refl, ap, inl, false, arith, [],
}
use low_latency_pipeline.Event.{Side, sell, buy}
use low_latency_pipeline.Bitmap.Member.{member, IsValid, member-reset, reset-IsValid, fresh-IsValid}
use low_latency_pipeline.OrderMap.Laws.{empty-Models}
use low_latency_pipeline.Levels.{PriceLevelArray, fresh_levels, init_levels, price_tick, no_level}
use low_latency_pipeline.Levels.Sides.{IsTop, IsWindow}
use low_latency_pipeline.Book.{OrderBook, fresh_book, init, side_levels, top, no_ask}
use low_latency_pipeline.Book.Sides.{SideHolds}
use low_latency_pipeline.Book.Own.{Own}
use low_latency_pipeline.Book.Invariant.{Holds}

init-IsWindow :
    (max_levels : ℕ) (a : PriceLevelArray) (base_price : ℕ)
    → IsValid max_levels a.occupied
    → base_price / price_tick * price_tick + max_levels * price_tick ≤ 2 ^ 32
    → IsWindow max_levels (init_levels a base_price)
unfolding init_levels
init-IsWindow max_levels a base_price valid fits = record {
  on_tick = omega arith;
  fits = fits;
  valid = reset-IsValid max_levels _ valid;
  positive = λ i bit. ground (arith, member-reset a.occupied i);
}

-- A side with no bit set and no orders.
empty-SideHolds :
    (side : Side) (max_levels best : ℕ) (a : PriceLevelArray)
    → IsWindow max_levels a
    → ((i : ℕ) → member a.occupied i ≡ false)
    → ((i : ℕ) → a.levels i ≡ no_level)
    → IsTop side a best
    → SideHolds max_levels side a best (λ i. 0) (λ i. 0) max_levels
empty-SideHolds side max_levels best a w none_set none_there t = record {
  window = w;
  is_top = t;
  counted = λ i lt. ap (λ l. l.order_count) (none_there i);
  totalled = λ i lt. ap (λ l. l.total_shares) (none_there i);
  small = λ i lt. omega arith;
  has_bit = λ i lt p. ground arith;
  no_bit = λ i lt n z. none_set i;
  hole_bit = λ x. ground arith;
}

-- init of any book whose order table is empty and whose bitmaps are valid, whatever levels, bits and
-- top it has, with a window that ends within uint32_t, gives a book that stands for no orders, its
-- levels from the base price, rounded down to a tick.
pub init-Holds :
    (max_levels capacity : ℕ) (hash : ℕ → ℕ) (book : OrderBook) (stock_id base_price : ℕ)
    → IsValid max_levels book.bids.occupied
    → IsValid max_levels book.asks.occupied
    → ((p : ℕ) → (book.orders p).occupied ≡ false)
    → base_price / price_tick * price_tick + max_levels * price_tick ≤ 2 ^ 32
    → Holds max_levels capacity hash
        (base_price / price_tick * price_tick)
        (init book stock_id base_price)
        []
unfolding init side_levels top init_levels
init-Holds max_levels capacity hash book stock_id base_price bids_valid asks_valid no_order fits =
    record {
      table = empty-Models capacity hash _ no_order;
      unique = tt;
      on_book = λ ref e has. cc;
      sides = λ s. elim s as (λ x. Own max_levels _ x _ _ _ _) [
        | buy ↦
            let none_set = member-reset book.bids.occupied in
            let w = init-IsWindow max_levels book.bids base_price bids_valid fits in
            record {
              based = refl;
              holds =
                  empty-SideHolds buy max_levels 0 _ w none_set (λ i. refl) (inl (refl, none_set));
            }
        | sell ↦
            let none_set = member-reset book.asks.occupied in
            let w = init-IsWindow max_levels book.asks base_price asks_valid fits in
            record {
              based = refl;
              holds =
                  empty-SideHolds sell max_levels no_ask _ w none_set (λ i. refl)
                    (inl (refl, none_set));
            }
      ];
    }

pub fresh_levels-IsValid :
    (tiers max_levels : ℕ)
    → max_levels ≤ 64 ^ suc tiers
    → IsValid max_levels (fresh_levels tiers max_levels).occupied
unfolding fresh_levels
fresh_levels-IsValid tiers max_levels few = fresh-IsValid tiers max_levels few

-- The book that a feed makes.
pub init_fresh-Holds :
    (tiers max_levels capacity : ℕ) (hash : ℕ → ℕ) (stock_id base_price : ℕ)
    → max_levels ≤ 64 ^ suc tiers
    → base_price / price_tick * price_tick + max_levels * price_tick ≤ 2 ^ 32
    → Holds max_levels capacity hash
        (base_price / price_tick * price_tick)
        (init (fresh_book tiers max_levels) stock_id base_price)
        []
init_fresh-Holds tiers max_levels capacity hash stock_id base_price few fits =
    let valid = fresh_levels-IsValid tiers max_levels few in
    init-Holds max_levels capacity hash (fresh_book tiers max_levels) stock_id base_price valid
      valid (λ p. refl) fits
