-- ===== src/Book/Replace.antt =====
-- Replaces: a new order in the place of one that rests.
use Prim.Native.Nat.{◌∣◌}
use low_latency_pipeline.Prelude.{ℕ, ◌%◌, ◌^◌, ◌<◌, ◌≡◌, refl, arith, none, some, inl, inr, length}
use low_latency_pipeline.Ring.{u32_mod}
use low_latency_pipeline.OrderMap.{OrderEntry}
use low_latency_pipeline.Levels.{price_tick}
use low_latency_pipeline.Book.{OrderBook, take_shares, on_replace, settle}
use low_latency_pipeline.Book.Views.{take_shares-Agrees, orders-take_shares, orders-count_down}
use low_latency_pipeline.Book.Room.{room}
use low_latency_pipeline.Book.Resting.{Resting, lookup, remove, lookup-remove, length-remove}
use low_latency_pipeline.Book.Invariant.{Holds}
use low_latency_pipeline.Book.Spec.{replace_order, replace_order-some, replace_order-none}
use low_latency_pipeline.Book.Leave.{found, taken-Own}
use low_latency_pipeline.Book.Handlers.{out-Holds, settled-Holds, on_add-Holds}

module _ (max_levels capacity : ℕ) (hash : ℕ → ℕ) (base : ℕ) (divides : capacity ∣ 2 ^ 32)
    (hash_lt : (k : ℕ) → hash k < 2 ^ 32) (pos : 0 < capacity) (bounded : capacity < 2 ^ 32) where
  -- A book that stands for fewer orders than the table has slots, a new reference, and a price above
  -- 0 on the tick: `on_replace` ends, and the book stands for the orders without the old one and, if the
  -- price is in the window, with the new one on its side. With no old order nothing changes.
  pub on_replace-Holds :
      (book : OrderBook) (q : Resting) (old_ref new_ref new_price new_shares : ℕ)
      → Holds max_levels capacity hash base book q
      → length q < capacity
      → lookup (remove old_ref q) new_ref ≡ none
      → new_price % price_tick ≡ 0
      → 0 < new_price
      → new_price < u32_mod
      → new_shares < u32_mod
      → (book' : OrderBook) × (on_replace max_levels capacity hash book old_ref new_ref new_price
            new_shares
          ≡ some book')
        × Holds max_levels capacity hash base book'
            (replace_order max_levels base old_ref new_ref new_price new_shares q)
  unfolding on_replace
  on_replace-Holds book q old_ref new_ref new_price new_shares h few new tick positive fits small =
      elim (found max_levels capacity hash base divides hash_lt pos bounded book q h few old_ref) [
        | inl (p, run, held, has) ↦
            let e = (book.orders p).entry in
            let (i, lt, at_i, e_positive, e_small) = h.on_book old_ref e has in
            let book1 = take_shares e.side e.price e.shares book in
            let same = orders-take_shares e.side e.price e.shares book in
            let own =
              taken-Own max_levels capacity hash base divides hash_lt pos bounded book q h few
                old_ref e i has lt at_i e_small in
            let (orders, erased, out) =
              out-Holds max_levels capacity hash base divides hash_lt pos bounded book book1 q
                (lookup q) old_ref i e e h has lt at_i own
                (take_shares-Agrees e.side e.price e.shares book) (rw same h.table)
                (rw same (room capacity hash book.orders q h.table h.unique few)) has
                (λ r. lookup-remove old_ref r q h.unique) in
            let added : OrderEntry = record {
              price = new_price;
              shares = new_shares;
              side = e.side;
            } in
            let (book3, ran, done) =
              on_add-Holds max_levels capacity hash base divides hash_lt pos bounded _ _
                (remove old_ref q) new_ref added out (omega (arith, length-remove old_ref e q has))
                new tick positive fits small in
            let counted = orders-count_down e.side e.price book1 in
            (
              settle e.side e.price book3,
              rw (run, counted, erased, ran) refl,
              rw (replace_order-some max_levels base old_ref new_ref new_price new_shares q e has) (
                  settled-Holds max_levels capacity hash base divides hash_lt pos bounded book3 _
                    e.side e.price i done lt at_i),
            )
        | inr (run, none_there) ↦ (
          book,
          rw run refl,
          rw (replace_order-none max_levels base old_ref new_ref new_price new_shares q none_there)
              h,
        )
      ]
