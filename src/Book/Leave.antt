-- ===== src/Book/Leave.antt =====
-- Executions, cancels and deletes: the handlers by which an order leaves the book.
use Prim.Native.Nat.{◌∣◌}
use low_latency_pipeline.Prelude.{
  ℕ, ◌+◌, ◌*◌, ◌%◌, ◌^◌, ◌<◌, ◌≡◌, ◌≢◌, refl, ap, arith, ◌==◌, none, some, if◌then◌else◌, inl, inr,
  ◌⊎◌, length,
}
use low_latency_pipeline.Ring.{u32_mod}
use low_latency_pipeline.OrderMap.{OrderEntry, find}
use low_latency_pipeline.OrderMap.Invariant.{HoldsAt}
use low_latency_pipeline.OrderMap.Laws.{find-Models}
use low_latency_pipeline.Levels.{price_tick}
use low_latency_pipeline.Book.{
  OrderBook, take_shares, on_execute, on_execute_with_price, on_cancel, on_delete,
}
use low_latency_pipeline.Book.Own.{Own, take-Own}
use low_latency_pipeline.Book.Views.{take_shares-Agrees, orders-take_shares}
use low_latency_pipeline.Book.Room.{room}
use low_latency_pipeline.Book.Resting.{Resting, lookup, remove, shares_at-remove, lookup-remove}
use low_latency_pipeline.Book.Invariant.{counts, totals, Holds}
use low_latency_pipeline.Book.Spec.{
  reduce_order, traded, traded-some, traded-none, reduce_order-none, remove-none,
}
use low_latency_pipeline.Book.Reduce.{reduce-Holds}
use low_latency_pipeline.Book.Handlers.{retire-Holds}

module _ (max_levels capacity : ℕ) (hash : ℕ → ℕ) (base : ℕ) (divides : capacity ∣ 2 ^ 32)
    (hash_lt : (k : ℕ) → hash k < 2 ^ 32) (pos : 0 < capacity) (bounded : capacity < 2 ^ 32)
    (book : OrderBook) (q : Resting) (h : Holds max_levels capacity hash base book q)
    (few : length q < capacity) (ref : ℕ) where
  -- The slot of the order under the reference, or the null pointer if there is no such order.
  pub found :
      ((p : ℕ) × (find capacity hash book.orders ref ≡ some (some p))
        × HoldsAt capacity hash book.orders ref p
        × (lookup q ref ≡ some (book.orders p).entry))
      ⊎ ((find capacity hash book.orders ref ≡ some none) × (lookup q ref ≡ none))
  found =
      find-Models capacity hash divides hash_lt pos book.orders (lookup q) ref h.table
        (room capacity hash book.orders q h.table h.unique few)

  -- A book that stands for fewer orders than the table has slots: `on_execute` ends, the book
  -- stands for the orders with the executed shares taken off the order under the reference, which
  -- goes if none are left, and the trade is at that order's price and side. With no such order
  -- nothing changes and there is no trade.
  pub on_execute-Holds :
      (executed_shares : ℕ)
      → executed_shares < u32_mod
      → (book' : OrderBook) × (on_execute max_levels capacity hash book ref executed_shares
          ≡ some (book', traded ref executed_shares q))
        × Holds max_levels capacity hash base book' (reduce_order ref executed_shares q)
  unfolding on_execute
  on_execute-Holds executed_shares fits = elim found [
    | inl (p, run, held, has) ↦
        let (book', reduced, done) =
          reduce-Holds max_levels capacity hash base divides hash_lt pos bounded book q ref
            executed_shares p h few fits held has in
        (book', rw (run, reduced, traded-some ref executed_shares q _ has) refl, done)
    | inr (run, new) ↦ (
      book,
      rw (run, traded-none ref executed_shares q new) refl,
      rw (reduce_order-none ref executed_shares q new) h,
    )
  ]

  -- `on_execute_with_price` does the same, and its trade, if it has shares, is at the execution
  -- price.
  pub on_execute_with_price-Holds :
      (executed_shares execution_price : ℕ)
      → executed_shares < u32_mod
      → let t = traded ref executed_shares q in
        (book' : OrderBook) × (on_execute_with_price max_levels capacity hash book ref
            executed_shares execution_price
          ≡ some (book', if t.shares == 0 then t else record t { price = execution_price }))
        × Holds max_levels capacity hash base book' (reduce_order ref executed_shares q)
  unfolding on_execute_with_price
  on_execute_with_price-Holds executed_shares execution_price fits =
      let (book', run, done) = on_execute-Holds executed_shares fits in (book', rw run refl, done)

  -- `on_cancel` ends and takes the cancelled shares off the order.
  pub on_cancel-Holds :
      (cancelled_shares : ℕ)
      → cancelled_shares < u32_mod
      → (book' : OrderBook) × (on_cancel max_levels capacity hash book ref cancelled_shares
          ≡ some book')
        × Holds max_levels capacity hash base book' (reduce_order ref cancelled_shares q)
  unfolding on_cancel
  on_cancel-Holds cancelled_shares fits = elim found [
    | inl (p, run, held, has) ↦
        let (book', reduced, done) =
          reduce-Holds max_levels capacity hash base divides hash_lt pos bounded book q ref
            cancelled_shares p h few fits held has in
        (book', rw (run, reduced) refl, done)
    | inr (run, new) ↦ (book, rw run refl, rw (reduce_order-none ref cancelled_shares q new) h)
  ]

  -- The shares of an order off its level.
  pub taken-Own :
      (e : OrderEntry) (i : ℕ)
      → lookup q ref ≡ some e
      → i < max_levels
      → e.price ≡ base + i * price_tick
      → e.shares < u32_mod
      → Own max_levels base e.side
          (take_shares e.side e.price e.shares book)
          (counts base e.side q)
          (totals base e.side (remove ref q))
          max_levels
  taken-Own e i has lt at_i small =
      let other : (j : ℕ) → j ≢ i → base + j * price_tick ≢ e.price = λ j n. omega arith in
      rw at_i (
        take-Own max_levels base e.side (h.sides e.side) i lt e.shares _ refl small
          (ap (λ x. x % u32_mod)
            (ground (arith, shares_at-remove e.side (base + i * price_tick) ref e q has)))
          (λ j n.
            ground (arith, other j n, shares_at-remove e.side (base + j * price_tick) ref e q has)))

  -- `on_delete` ends and takes the order out.
  pub on_delete-Holds :
      (book' : OrderBook) × (on_delete max_levels capacity hash book ref ≡ some book')
      × Holds max_levels capacity hash base book' (remove ref q)
  unfolding on_delete
  on_delete-Holds = elim found [
    | inl (p, run, held, has) ↦
        let e = (book.orders p).entry in
        let (i, lt, at_i, positive, small) = h.on_book ref e has in
        let book1 = take_shares e.side e.price e.shares book in
        let same = orders-take_shares e.side e.price e.shares book in
        let (book', retired, done) =
          retire-Holds max_levels capacity hash base divides hash_lt pos bounded book book1 q
            (lookup q) ref i e e h has lt at_i (taken-Own e i has lt at_i small)
            (take_shares-Agrees e.side e.price e.shares book) (rw same h.table)
            (rw same (room capacity hash book.orders q h.table h.unique few)) has
            (λ r. lookup-remove ref r q h.unique) in
        (book', rw (run, retired) refl, done)
    | inr (run, new) ↦ (book, rw run refl, rw (remove-none ref q new) h)
  ]
