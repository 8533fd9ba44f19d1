-- ===== src/Feed/Opening.antt =====
-- The first order of a symbol makes its book.
use Prim.Native.Nat.{◌∣◌}
use low_latency_pipeline.Prelude.{
  ℕ, suc, ◌+◌, ◌-◌, ◌*◌, ◌/◌, ◌%◌, ◌^◌, ◌<◌, ◌≤◌, ◌≡◌, ◌⊎◌, inl, inr, refl, ap, ◌∙◌, true, none,
  some, [], ◌∷◌, arith, if◌then◌else◌, update, subst,
}
use low_latency_pipeline.Event.{Event}
use low_latency_pipeline.Ring.{u32_mod}
use low_latency_pipeline.Levels.{price_tick}
use low_latency_pipeline.Book.{Trade, fresh_book, init}
use low_latency_pipeline.Book.Spec.{in_window, rest_order}
use low_latency_pipeline.Book.Invariant.{Holds}
use low_latency_pipeline.Book.Init.{init_fresh-Holds}
use low_latency_pipeline.Feed.{
  BookArray, PrimaryFeed, Message, same_bytes, seed_base, ensure, apply,
}
use low_latency_pipeline.Feed.Orders.{added, kind, event_orders, event_trade}
use low_latency_pipeline.Feed.Books.{is_add, same_bytes_self, FeedHolds, apply_to-FeedHolds}

-- The base of the levels for a first price: half of the levels are below the price, or as many as
-- there are prices.
abbrev pub first_base : (max_levels price : ℕ) → ℕ
first_base max_levels price = price - max_levels / 2 * price_tick

first_base-seed :
    (max_levels price : ℕ)
    → price % price_tick ≡ 0
    → seed_base max_levels price / price_tick * price_tick ≡ first_base max_levels price
unfolding seed_base
first_base-seed max_levels price tick = ground arith

-- The first price is in the window that is laid around it.
first_price-in_window :
    (max_levels price : ℕ)
    → 0 < max_levels
    → price % price_tick ≡ 0
    → in_window max_levels (first_base max_levels price) price ≡ true
first_price-in_window max_levels price pos tick = ground arith

rests :
    (max_levels : ℕ) (ev : Event)
    → 0 < max_levels
    → ev.price % price_tick ≡ 0
    → rest_order max_levels (first_base max_levels ev.price) ev.order_ref_number (added ev) []
      ≡ (ev.order_ref_number, added ev) ∷ []
rests max_levels ev pos tick =
    ap (λ b. if b then (ev.order_ref_number, added ev) ∷ [] else [])
      (first_price-in_window max_levels ev.price pos tick)

kind-add : (ev : Event) → is_add ev ≡ true → kind ev ≡ Message.add
kind-add ev adds = ground arith

-- The array after the book is made.
abbrev made : (tiers max_levels : ℕ) → BookArray → Event → BookArray
made tiers max_levels engine ev = record {
  books =
      update engine.books ev.stock_locate
        (some (init (fresh_book tiers max_levels) ev.stock_locate (seed_base max_levels ev.price)));
  spare = none;
}

ensure_new :
    (tiers max_levels : ℕ) (engine : BookArray) (ev : Event)
    → engine.books ev.stock_locate ≡ none
    → (engine.spare ≡ none) ⊎ (engine.spare ≡ some (fresh_book tiers max_levels))
    → ensure tiers max_levels engine ev.stock_locate ev.stock_locate (seed_base max_levels ev.price)
      ≡ (
        made tiers max_levels engine ev,
        init (fresh_book tiers max_levels) ev.stock_locate (seed_base max_levels ev.price),
      )
unfolding ensure
ensure_new tiers max_levels engine ev new (inl empty) = rw (new, empty, ensure) refl
ensure_new tiers max_levels engine ev new (inr warm) = rw (new, warm, ensure) refl

module _ (tiers max_levels capacity : ℕ) (hash : ℕ → ℕ) (divides : capacity ∣ 2 ^ 32)
    (hash_lt : (k : ℕ) → hash k < 2 ^ 32) (pos : 0 < capacity) (bounded : capacity < 2 ^ 32) where
  -- A feed with no book, prewarmed or not, and an order of its symbol as the exchange sends it, at a
  -- price above 0 and on the tick from which the window of levels ends within uint32_t: apply makes
  -- the symbol's book with half of its levels below the price, or from 0 on if the price is lower
  -- than that, and the order rests on it.
  pub opening-FeedHolds :
      (feed : PrimaryFeed) (ev : Event) (trade : Trade)
      → ((k : ℕ) → feed.engine.books k ≡ none)
      → (feed.engine.spare ≡ none) ⊎ (feed.engine.spare ≡ some (fresh_book tiers max_levels))
      → is_add ev ≡ true
      → ev.stock ≡ feed.symbol
      → 0 < max_levels
      → max_levels ≤ 64 ^ suc tiers
      → ev.price % price_tick ≡ 0
      → 0 < ev.price
      → ev.price + max_levels * price_tick ≤ 2 ^ 32
      → ev.shares < u32_mod
      → (feed' : PrimaryFeed) × (apply tiers max_levels capacity hash feed ev trade
          ≡ some (feed', some ev.stock_locate, trade))
        × FeedHolds tiers max_levels capacity hash
            (first_base max_levels ev.price)
            ev.stock_locate
            feed.symbol
            feed'
            ((ev.order_ref_number, added ev) ∷ [])
  unfolding apply
  opening-FeedHolds feed ev trade none_yet spare adds same some_level few tick positive fits small =
      let message = kind-add ev adds in
      let matched : same_bytes ev.stock feed.symbol ≡ true =
        subst (λ t. same_bytes ev.stock t ≡ true) same (same_bytes_self ev.stock) in
      let base = first_base max_levels ev.price in
      let seeded = first_base-seed max_levels ev.price tick in
      let opened =
        init_fresh-Holds tiers max_levels capacity hash ev.stock_locate
          (seed_base max_levels ev.price) few (omega (arith, seeded)) in
      let book =
        init (fresh_book tiers max_levels) ev.stock_locate (seed_base max_levels ev.price) in
      let (feed', run, done, counted) =
        apply_to-FeedHolds tiers max_levels capacity hash base ev.stock_locate feed.symbol divides
          hash_lt pos bounded feed (made tiers max_levels feed.engine ev) book [] ev trade refl refl
          (λ k n. ground (arith, none_yet k))
          (subst (λ b. Holds max_levels capacity hash b book []) seeded opened) pos
          (rw message (refl, tick, positive, omega arith, small)) in
      (
        feed',
        rw
            (
              adds,
              matched,
              ensure_new tiers max_levels feed.engine ev (none_yet ev.stock_locate) spare,
            )
            (run ∙ ap (λ m. some (feed', some ev.stock_locate, event_trade m ev trade [])) message),
        subst (FeedHolds tiers max_levels capacity hash base ev.stock_locate feed.symbol feed')
            (ap (λ m. event_orders max_levels base m ev []) message
              ∙ rests max_levels ev some_level tick)
            done,
      )
