-- ===== src/Book/Handlers.antt =====
-- `on_add` and the part that the other handlers share: an order leaves the book.
use Prim.Native.Nat.{◌∣◌}
use low_latency_pipeline.Prelude.{
  ℕ, ◌+◌, ◌*◌, ◌%◌, ◌^◌, ◌<◌, ◌≡◌, refl, arith, ◌==◌, none, some, Bool-cases, inl, inr, update,
  length, ◌∷◌,
}
use low_latency_pipeline.Event.{Side}
use low_latency_pipeline.Ring.{u32_mod}
use low_latency_pipeline.OrderMap.{OrderEntry, Slots, erase}
use low_latency_pipeline.OrderMap.Invariant.{HasRoom}
use low_latency_pipeline.OrderMap.Laws.{Models, Orders, insert-Models, erase-Models}
use low_latency_pipeline.Levels.{price_tick}
use low_latency_pipeline.Levels.Sides.{in_range_lem, in_window_lem}
use low_latency_pipeline.Book.{
  OrderBook, side_levels, on_add, rest, drop, retire, count_down, settle,
}
use low_latency_pipeline.Book.Own.{Own, Own-orders, Own-drop, rest-Own, count_down-Own, settle-Own}
use low_latency_pipeline.Book.Views.{
  Agrees, Agrees-trans, rest-Agrees, orders-rest, count_down-Agrees, settle-Agrees, orders-settle,
  orders-Agrees, orders-drop,
}
use low_latency_pipeline.Book.Room.{room}
use low_latency_pipeline.Book.Resting.{
  Resting, lookup, remove, orders_at-remove, shares_at-remove, orders_at-le, remove-IsUnique,
  lookup-remove,
}
use low_latency_pipeline.Book.Invariant.{
  counts, totals, Models-ext, HoldsBut, Holds, finish, hole_at, same_side_self,
}
use low_latency_pipeline.Book.Spec.{in_window, rest_order}

module _ (max_levels capacity : ℕ) (hash : ℕ → ℕ) (base : ℕ) (divides : capacity ∣ 2 ^ 32)
    (hash_lt : (k : ℕ) → hash k < 2 ^ 32) (pos : 0 < capacity) (bounded : capacity < 2 ^ 32) where
  -- An order of the window comes to rest.
  rested-Holds :
      (hole : Side → ℕ) (book : OrderBook) (q : Resting) (ref : ℕ) (e : OrderEntry) (i : ℕ)
      → HoldsBut max_levels capacity hash base hole book q
      → length q < capacity
      → lookup q ref ≡ none
      → i < max_levels
      → e.price ≡ base + i * price_tick
      → 0 < e.price
      → e.shares < u32_mod
      → (orders : Slots) → Models capacity hash orders (update (lookup q) ref (some e))
      → HoldsBut max_levels capacity hash base hole
          (rest e.side e.price e.shares (record book { orders = orders }))
          ((ref, e) ∷ q)
  rested-Holds hole book q ref e i h few new lt at_i positive small orders m =
      let book1 = record book { orders = orders } in
      let few_at : counts base e.side q i + 1 < u32_mod =
        omega (arith, orders_at-le e.side (base + i * price_tick) q) in
      let own1 = Own-orders max_levels base e.side book _ _ _ orders (h.sides e.side) in
      let own : Own max_levels base e.side (rest e.side e.price e.shares book1)
          (counts base e.side ((ref, e) ∷ q)) (totals base e.side ((ref, e) ∷ q)) (hole e.side) =
        rw at_i (
          rest-Own max_levels base e.side own1 i lt e.shares _ _ (omega arith) few_at
            (λ j. ground arith) (λ j. ground arith)) in
      finish max_levels capacity hash base e.side hole hole book _ q ((ref, e) ∷ q) h
        (rw (orders-rest e.side e.price e.shares book1) m) (new, h.unique)
        (λ r d has. elim (Bool-cases (ref == r)) [
          | inl same ↦ (i, lt, ground arith, ground arith, ground arith)
          | inr other ↦ h.on_book r d (ground arith)
        ])
        own
        (Agrees-trans e.side book book1 _ (orders-Agrees e.side orders book)
          (rest-Agrees e.side e.price e.shares book1))
        (λ s n. refl) (λ s price n. (ground arith, ground arith))

  -- A book that stands for fewer orders than the table has slots, and a new reference with a price
  -- above 0 on the tick: `on_add` ends, and the book stands for the orders with the new one, or,
  -- outside the window, for those of before.
  pub on_add-Holds :
      (hole : Side → ℕ) (book : OrderBook) (q : Resting) (ref : ℕ) (e : OrderEntry)
      → HoldsBut max_levels capacity hash base hole book q
      → length q < capacity
      → lookup q ref ≡ none
      → e.price % price_tick ≡ 0
      → 0 < e.price
      → e.price < u32_mod
      → e.shares < u32_mod
      → (book' : OrderBook) × (on_add max_levels capacity hash book ref e.side e.price e.shares
          ≡ some book')
        × HoldsBut max_levels capacity hash base hole book' (rest_order max_levels base ref e q)
  unfolding on_add drop
  on_add-Holds hole book q ref e h few new tick positive fits small =
      let a = side_levels e.side book in
      let o = h.sides e.side in
      let test = in_range_lem max_levels a e.price o.holds.window fits tick in
      elim (Bool-cases (in_window max_levels base e.price)) [
        | inl inside ↦
            let (i, lt, at_i) =
              in_window_lem max_levels a e.price o.holds.window tick (rw o.based inside) in
            let (orders, run, m) =
              insert-Models capacity hash divides hash_lt pos book.orders (lookup q) ref h.table
                (room capacity hash book.orders q h.table h.unique few) e new in
            (
              rest e.side e.price e.shares (record book { orders = orders }),
              rw (test, o.based, inside, run) refl,
              rw inside (
                  rested-Holds hole book q ref e i h few new lt (ground (arith, o.based)) positive
                    small orders m),
            )
        | inr outside ↦ (
          drop book,
          rw (test, o.based, outside) refl,
          rw outside (record {
            table = rw (orders-drop book) h.table;
            unique = h.unique;
            on_book = h.on_book;
            sides = λ s. Own-drop max_levels base s book _ _ (hole s) (h.sides s);
          }),
        )
      ]

  -- The order under `ref` goes out of the count of its level and out of the table, where its
  -- shares have gone from the level before.
  pub out-Holds :
      (book book1 : OrderBook) (q : Resting) (f1 : Orders) (ref i : ℕ) (e e1 : OrderEntry)
      → Holds max_levels capacity hash base book q
      → lookup q ref ≡ some e
      → i < max_levels
      → e.price ≡ base + i * price_tick
      → Own max_levels base e.side book1
          (counts base e.side q)
          (totals base e.side (remove ref q))
          max_levels
      → Agrees e.side book book1
      → Models capacity hash book1.orders f1
      → HasRoom capacity hash book1.orders
      → f1 ref ≡ some e1
      → ((r : ℕ) → update f1 ref none r ≡ lookup (remove ref q) r)
      → (orders : Slots) × (erase capacity hash book1.orders ref ≡ some orders)
        × HoldsBut max_levels capacity hash base
            (hole_at max_levels e.side i)
            (record (count_down e.side e.price book1) { orders = orders })
            (remove ref q)
  out-Holds book book1 q f1 ref i e e1 h has lt at_i own1 agrees m free has1 same =
      let (orders, run, m', _) =
        erase-Models capacity hash divides hash_lt pos book1.orders f1 ref m free e1 has1 in
      let book2 = count_down e.side e.price book1 in
      let own2 : Own max_levels base e.side book2 (counts base e.side (remove ref q))
          (totals base e.side (remove ref q)) i =
        rw at_i (
          count_down-Own max_levels base e.side own1 i lt _ refl
            (ground (arith, orders_at-remove e.side (base + i * price_tick) ref e q has))
            (λ j n. ground (arith, orders_at-remove e.side (base + j * price_tick) ref e q has))) in
      (
        orders,
        run,
        finish max_levels capacity hash base e.side _ _ book _ q (remove ref q) h
            (Models-ext capacity hash orders _ _ same m') (remove-IsUnique ref q h.unique)
            (λ r d gone. h.on_book r d (ground (arith, lookup-remove ref r q h.unique)))
            (rw (same_side_self e.side) (Own-orders max_levels base e.side book2 _ _ i orders own2))
            (Agrees-trans e.side book book1 _ agrees (
              Agrees-trans e.side book1 book2 _ (count_down-Agrees e.side e.price book1)
                (orders-Agrees e.side orders book2)))
            (λ s n. ground arith)
            (λ s price n. (
              ground (arith, orders_at-remove s price ref e q has),
              ground (arith, shares_at-remove s price ref e q has),
            )),
      )

  -- The test for a drained level closes the gap.
  pub settled-Holds :
      (book : OrderBook) (q : Resting) (side : Side) (price i : ℕ)
      → HoldsBut max_levels capacity hash base (hole_at max_levels side i) book q
      → i < max_levels
      → price ≡ base + i * price_tick
      → Holds max_levels capacity hash base (settle side price book) q
  settled-Holds book q side price i h lt at_i =
      let gap : hole_at max_levels side i side ≡ i = ground (arith, same_side_self side) in
      finish max_levels capacity hash base side _ _ book _ q q h
        (rw (orders-settle side price book) h.table) h.unique h.on_book
        (rw at_i (settle-Own max_levels base side (h.sides side) i lt gap))
        (settle-Agrees side price book) (λ s n. ground arith) (λ s price n. (refl, refl))

  -- `retire` ends, and the book stands for the orders without the one under `ref`.
  pub retire-Holds :
      (book book1 : OrderBook) (q : Resting) (f1 : Orders) (ref i : ℕ) (e e1 : OrderEntry)
      → Holds max_levels capacity hash base book q
      → lookup q ref ≡ some e
      → i < max_levels
      → e.price ≡ base + i * price_tick
      → Own max_levels base e.side book1
          (counts base e.side q)
          (totals base e.side (remove ref q))
          max_levels
      → Agrees e.side book book1
      → Models capacity hash book1.orders f1
      → HasRoom capacity hash book1.orders
      → f1 ref ≡ some e1
      → ((r : ℕ) → update f1 ref none r ≡ lookup (remove ref q) r)
      → (book' : OrderBook) × (retire max_levels capacity hash e.side e.price ref book1
          ≡ some book')
        × Holds max_levels capacity hash base book' (remove ref q)
  unfolding retire
  retire-Holds book book1 q f1 ref i e e1 h has lt at_i own1 agrees m free has1 same =
      let (orders, run, out) =
        out-Holds book book1 q f1 ref i e e1 h has lt at_i own1 agrees m free has1 same in
      (
        settle e.side e.price (record (count_down e.side e.price book1) { orders = orders }),
        rw run refl,
        settled-Holds _ (remove ref q) e.side e.price i out lt at_i,
      )
