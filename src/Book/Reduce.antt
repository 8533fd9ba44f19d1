-- ===== src/Book/Reduce.antt =====
-- Executions, cancels and deletes: shares leave an order, and an order without shares goes.
use Prim.Native.Nat.{◌∣◌}
use low_latency_pipeline.Prelude.{
  ℕ, ◌+◌, ◌*◌, ◌%◌, ◌^◌, ◌<◌, ◌≡◌, ◌≢◌, refl, arith, ◌==◌, some, Bool-cases, inl, inr, update,
  length, ℕ_discrete,
}
use low_latency_pipeline.Ring.{u32_mod, sub32}
use low_latency_pipeline.OrderMap.{OrderEntry}
use low_latency_pipeline.OrderMap.Invariant.{HasRoom, HoldsAt}
use low_latency_pipeline.OrderMap.Laws.{Models, written-Models, written-HasRoom}
use low_latency_pipeline.Levels.{price_tick}
use low_latency_pipeline.Book.{OrderBook, reduce, take_shares}
use low_latency_pipeline.Book.Own.{Own, Own-orders, take-Own}
use low_latency_pipeline.Book.Views.{Agrees, Agrees-trans, take_shares-Agrees, orders-Agrees}
use low_latency_pipeline.Book.Room.{room}
use low_latency_pipeline.Book.Resting.{
  Resting, lookup, remove, reshare, shares_at-remove, orders_at-reshare, shares_at-reshare,
  lookup-remove, lookup-reshare, reshare-IsUnique,
}
use low_latency_pipeline.Book.Invariant.{counts, totals, Models-ext, Holds, finish, other_side}
use low_latency_pipeline.Book.Spec.{reduce_order, reduce_order-gone, reduce_order-stays}
use low_latency_pipeline.Book.Handlers.{retire-Holds}

module _ (max_levels capacity : ℕ) (hash : ℕ → ℕ) (base : ℕ) (divides : capacity ∣ 2 ^ 32)
    (hash_lt : (k : ℕ) → hash k < 2 ^ 32) (pos : 0 < capacity) (bounded : capacity < 2 ^ 32) where
  -- What leaves an order, on uint32_t.
  left_lem :
      (old shares left before after : ℕ)
      → old < u32_mod
      → shares < u32_mod
      → left ≡ sub32 old shares
      → after + old ≡ before + left
      → (after + shares) % u32_mod ≡ before % u32_mod
  left_lem old shares left before after small fits e same = omega arith

  -- `reduce` at the slot of an order that rests ends, and the book stands for the orders with its
  -- shares taken off, or without it.
  pub reduce-Holds :
      (book : OrderBook) (q : Resting) (ref shares p : ℕ)
      → Holds max_levels capacity hash base book q
      → length q < capacity
      → shares < u32_mod
      → HoldsAt capacity hash book.orders ref p
      → lookup q ref ≡ some (book.orders p).entry
      → (book' : OrderBook) × (reduce max_levels capacity hash p ref shares book ≡ some book')
        × Holds max_levels capacity hash base book' (reduce_order ref shares q)
  unfolding reduce
  reduce-Holds book q ref shares p h few fits held has =
      let e = (book.orders p).entry in
      let (i, lt, at_i, positive, small) = h.on_book ref e has in
      let left = sub32 e.shares shares in
      let e1 : OrderEntry = record e { shares = left } in
      let free = room capacity hash book.orders q h.table h.unique few in
      let slots = update book.orders p (record (book.orders p) { entry = e1 }) in
      let m : Models capacity hash slots (update (lookup q) ref (some e1)) =
        written-Models capacity hash divides hash_lt pos book.orders (lookup q) ref h.table free p
          e1 held in
      let free1 : HasRoom capacity hash slots =
        written-HasRoom capacity hash divides hash_lt pos book.orders (lookup q) ref h.table free p
          e1 in
      let book1 = take_shares e.side e.price shares book in
      let book2 : OrderBook = record book1 { orders = slots } in
      let agrees : Agrees e.side book book2 =
        Agrees-trans e.side book book1 book2 (take_shares-Agrees e.side e.price shares book)
          (orders-Agrees e.side slots book1) in
      let at_level : (j : ℕ) → j ≢ i → base + j * price_tick ≢ e.price = λ j n. omega arith in
      elim (Bool-cases (left == 0)) [
        | inl z ↦
            let own : Own max_levels base e.side book2 (counts base e.side q)
                (totals base e.side (remove ref q)) max_levels =
              Own-orders max_levels base e.side book1 _ _ max_levels slots (
                rw at_i (
                  take-Own max_levels base e.side (h.sides e.side) i lt shares _ refl fits
                    (left_lem e.shares shares left _ _ small fits refl
                      (ground (arith, shares_at-remove e.side (base + i * price_tick) ref e q has)))
                    (λ j n. ground (
                      arith,
                      at_level j n,
                      shares_at-remove e.side (base + j * price_tick) ref e q has,
                    )))) in
            let (book', run, done) =
              retire-Holds max_levels capacity hash base divides hash_lt pos bounded book book2 q _
                ref i e e1 h has lt at_i own agrees m free1 (ground arith)
                (λ r. ground (arith, lookup-remove ref r q h.unique)) in
            (book', rw (z, run) refl, rw (reduce_order-gone ref shares q e has z) done)
        | inr n ↦
            let own : Own max_levels base e.side book2 (counts base e.side q)
                (totals base e.side (reshare ref left q)) max_levels =
              Own-orders max_levels base e.side book1 _ _ max_levels slots (
                rw at_i (
                  take-Own max_levels base e.side (h.sides e.side) i lt shares _ refl fits
                    (left_lem e.shares shares left _ _ small fits refl (
                      ground
                        (arith, shares_at-reshare e.side (base + i * price_tick) ref e left q has)))
                    (λ j n. ground (
                      arith,
                      at_level j n,
                      shares_at-reshare e.side (base + j * price_tick) ref e left q has,
                    )))) in
            (
              book2,
              rw n refl,
              rw (reduce_order-stays ref shares q e has n) (
                  finish max_levels capacity hash base e.side _ _ book book2 q (reshare ref left q)
                    h
                    (Models-ext capacity hash slots _ _ (λ r. lookup-reshare ref r left e q has) m)
                    (reshare-IsUnique ref left q h.unique)
                    (λ r d gone. elim (ℕ_discrete ref r) [
                      | yes same ↦ (
                        i,
                        lt,
                        ground (arith, at_i, lookup-reshare ref r left e q has),
                        ground (arith, positive, lookup-reshare ref r left e q has),
                        ground (arith, lookup-reshare ref r left e q has),
                      )
                      | no other ↦ h.on_book r d (ground (arith, lookup-reshare ref r left e q has))
                    ])
                    (other_side max_levels capacity hash base e.side book2 book2 _ _ _ _ max_levels
                      refl refl (λ j. orders_at-reshare e.side (base + j * price_tick) ref e left q)
                      (λ j. refl) own)
                    agrees (λ s x. refl)
                    (λ s price x. (
                      orders_at-reshare s price ref e left q,
                      ground (arith, shares_at-reshare s price ref e left q has),
                    ))),
            )
      ]
