-- ===== src/Feed/Books.antt =====
-- The feed from event to event: the first order of the symbol opens its book, and the book then
-- follows the events of the symbol and no others.
use Prim.Native.Nat.{◌∣◌}
use low_latency_pipeline.Prelude.{
  ℕ, ◌+◌, ◌%◌, ◌^◌, ◌<◌, ◌≡◌, ◌≢◌, inl, inr, refl, ap, ◌∙◌, Bool, true, false, ◌||◌, Option, none,
  some, List, [], ◌∷◌, arith, ◌==◌, if◌then◌else◌, ◌>>=◌, length, Bool-cases, update, update_self,
  ℕ_discrete, subst,
}
use mathlib.Core.List.{List-discrete}
use low_latency_pipeline.Event.{Event}
use low_latency_pipeline.Book.{OrderBook, Trade, no_trade}
use low_latency_pipeline.Book.Resting.{Resting}
use low_latency_pipeline.Book.Invariant.{Holds}
use low_latency_pipeline.Feed.{BookArray, PrimaryFeed, same_bytes, ensure, apply_to, apply}
use low_latency_pipeline.Feed.Orders.{
  IsFit, kind, message_of-kind, event_orders, event_trade, dispatch-Holds,
}

-- Whether two tickers are equal.
unfoldable pub is_symbol : (stock symbol : List ℕ) → Bool
is_symbol stock symbol = elim (List-discrete ℕ_discrete stock symbol) [
  | yes e ↦ true
  | no n ↦ false
]

pub same_bytes-eq : (a b : List ℕ) → same_bytes a b ≡ true → a ≡ b
unfolding same_bytes
same_bytes-eq [] [] e = refl
same_bytes-eq [] (y ∷ ys) e = cc
same_bytes-eq (x ∷ xs) [] e = cc
same_bytes-eq (x ∷ xs) (y ∷ ys) e = elim (Bool-cases (x == y)) [
  | inl same ↦
      let xy : x ≡ y = ground arith in cc (xy, same_bytes-eq xs ys (ground (arith, e, same)))
  | inr other ↦ absurd (ground (arith, e, other))
]

pub same_bytes_self : (a : List ℕ) → same_bytes a a ≡ true
unfolding same_bytes
same_bytes_self [] = refl
same_bytes_self (x ∷ xs) = let same : (x == x) ≡ true = ground arith in rw same (same_bytes_self xs)

pub same_bytes-is_symbol : (a b : List ℕ) → same_bytes a b ≡ is_symbol a b
unfolding is_symbol
same_bytes-is_symbol a b =
    elim (List-discrete ℕ_discrete a b)
      as (λ d. same_bytes a b ≡ (elim d [ yes e ↦ true | no n ↦ false ])) [
        | yes e ↦ subst (λ c. same_bytes a c ≡ true) e (same_bytes_self a)
        | no n ↦ elim (Bool-cases (same_bytes a b)) [
          | inl same ↦ absurd (n (same_bytes-eq a b same))
          | inr other ↦ other
        ]
      ]

abbrev pub is_add : Event → Bool
is_add ev = (ev.message_type == 65) || (ev.message_type == 70)

-- An event of the symbol: an order with its ticker, or another message with its locate.
abbrev pub is_own : (locate : ℕ) (symbol : List ℕ) → Event → Bool
is_own locate symbol ev = if is_add ev then is_symbol ev.stock symbol else ev.stock_locate == locate

-- The orders after one event, and after a list of them.
abbrev pub feed_orders : (max_levels base locate : ℕ) (symbol : List ℕ) → Event → Resting → Resting
feed_orders max_levels base locate symbol ev q =
    if is_own locate symbol ev then event_orders max_levels base (kind ev) ev q else q

abbrev pub stream_orders :
    (max_levels base locate : ℕ) (symbol : List ℕ) → List Event → Resting → Resting
stream_orders max_levels base locate symbol [] q = q
stream_orders max_levels base locate symbol (ev ∷ evs) q =
    stream_orders max_levels base locate symbol evs (feed_orders max_levels base locate symbol ev q)

abbrev pub own_count : (locate : ℕ) (symbol : List ℕ) → List Event → ℕ
own_count locate symbol [] = 0
own_count locate symbol (ev ∷ evs) =
    let others = own_count locate symbol evs in
    if is_own locate symbol ev then others + 1 else others

-- Each event of the symbol has its locate, and is as the exchange sends it when its turn comes,
-- with fewer orders resting than the table has slots.
abbrev pub IsFitStream :
    (max_levels capacity base locate : ℕ) (symbol : List ℕ) → List Event → Resting → Type 0
IsFitStream max_levels capacity base locate symbol [] q = Unit {0}
IsFitStream max_levels capacity base locate symbol (ev ∷ evs) q =
    (is_own locate symbol ev ≡ true
      → (ev.stock_locate ≡ locate) × IsFit (kind ev) ev q × (length q < capacity))
    × IsFitStream max_levels capacity base locate symbol evs
        (feed_orders max_levels base locate symbol ev q)

module _ (tiers max_levels capacity : ℕ) (hash : ℕ → ℕ) where
  -- The feed over a list of events, with no trade at the start of each.
  abbrev pub replay : PrimaryFeed → List Event → Option PrimaryFeed
  replay feed [] = some feed
  replay feed (ev ∷ evs) = do
    (after, touched, t) ← apply tiers max_levels capacity hash feed ev no_trade
    replay after evs

-- A book that is there is kept.
ensure_has :
    (tiers max_levels : ℕ) (engine : BookArray) (book : OrderBook) (locate stock_id base_price : ℕ)
    → engine.books locate ≡ some book
    → ensure tiers max_levels engine locate stock_id base_price ≡ (engine, book)
unfolding ensure
ensure_has tiers max_levels engine book locate stock_id base_price has = rw (has, ensure) refl

-- One event in the count of all.
counted_step :
    (after before others : ℕ) (own : Bool)
    → after ≡ (if own then (before + 1) % 2 ^ 64 else before)
    → (after + others) % 2 ^ 64 ≡ (before + (if own then others + 1 else others)) % 2 ^ 64
counted_step after before others true e = omega (arith, e)
counted_step after before others false e = omega (arith, e)

module _ (tiers max_levels capacity : ℕ) (hash : ℕ → ℕ) (base locate : ℕ) (symbol : List ℕ) where
  -- The feed of `symbol` has one book, that of the locate, and it stands for the orders.
  pub record FeedHolds (feed : PrimaryFeed) (q : Resting) : Type 0 where
    pub subscribed : feed.symbol ≡ symbol
    pub book : OrderBook
    pub at_locate : feed.engine.books locate ≡ some book
    pub stands : Holds max_levels capacity hash base book q
    pub alone : (k : ℕ) → k ≢ locate → feed.engine.books k ≡ none

  -- An event of the symbol goes to its book.
  pub apply-own :
      (feed : PrimaryFeed) (q : Resting) (ev : Event) (trade : Trade) (h : FeedHolds feed q)
      → is_own locate symbol ev ≡ true
      → ev.stock_locate ≡ locate
      → apply tiers max_levels capacity hash feed ev trade
        ≡ apply_to max_levels capacity hash feed feed.engine h.book ev trade
  unfolding apply
  apply-own feed q ev trade h own here =
      let has : feed.engine.books ev.stock_locate ≡ some h.book =
        ap feed.engine.books here ∙ h.at_locate in
      elim (Bool-cases (is_add ev)) [
        | inl adds ↦
            let own_symbol : same_bytes ev.stock symbol ≡ true =
              same_bytes-is_symbol ev.stock symbol ∙ ground (arith, own, adds) in
            let same : same_bytes ev.stock feed.symbol ≡ true = rw h.subscribed own_symbol in
            rw (adds, same, ensure_has tiers max_levels feed.engine h.book ev.stock_locate _ _ has)
              refl
        | inr more ↦ rw (more, has) refl
      ]

  -- Any other event is filtered out.
  pub apply-foreign :
      (feed : PrimaryFeed) (q : Resting) (ev : Event) (trade : Trade)
      → FeedHolds feed q
      → is_own locate symbol ev ≡ false
      → apply tiers max_levels capacity hash feed ev trade ≡ some (feed, none, trade)
  unfolding apply
  apply-foreign feed q ev trade h own = elim (Bool-cases (is_add ev)) [
    | inl adds ↦
        let differ : same_bytes ev.stock symbol ≡ false =
          same_bytes-is_symbol ev.stock symbol ∙ ground (arith, own, adds) in
        rw (adds, h.subscribed, differ) refl
    | inr more ↦
        let other : ev.stock_locate ≢ locate = ground (arith, own, more) in
        rw (more, h.alone ev.stock_locate other) refl
  ]

  module _ (divides : capacity ∣ 2 ^ 32) (hash_lt : (k : ℕ) → hash k < 2 ^ 32) (pos : 0 < capacity)
      (bounded : capacity < 2 ^ 32) where
    -- The event on the book that the feed has, or has just made.
    pub apply_to-FeedHolds :
        (feed : PrimaryFeed) (engine : BookArray) (book : OrderBook) (q : Resting) (ev : Event)
        (trade : Trade)
        → feed.symbol ≡ symbol
        → ev.stock_locate ≡ locate
        → ((k : ℕ) → k ≢ locate → engine.books k ≡ none)
        → Holds max_levels capacity hash base book q
        → length q < capacity
        → IsFit (kind ev) ev q
        → (feed' : PrimaryFeed) × (apply_to max_levels capacity hash feed engine book ev trade
            ≡ some (feed', some locate, event_trade (kind ev) ev trade q))
          × FeedHolds feed' (event_orders max_levels base (kind ev) ev q)
          × (feed'.count ≡ (feed.count + 1) % 2 ^ 64)
    unfolding apply_to
    apply_to-FeedHolds feed engine book q ev trade sub here alone h few fit =
        let (book', run, done) =
          dispatch-Holds max_levels capacity hash base divides hash_lt pos bounded (kind ev) book q
            ev trade h few fit in
        (
          record feed {
            engine = record engine { books = update engine.books ev.stock_locate (some book') };
            count = (feed.count + 1) % 2 ^ 64;
          },
          rw (message_of-kind ev, run, here) refl,
          record {
            subscribed = sub;
            book = book';
            at_locate = rw here (update_self engine.books locate (some book'));
            stands = done;
            alone = λ k n. ground (arith, here, alone k n);
          },
          refl,
        )

    -- One event: the book of the symbol follows it if it is the symbol's, and nothing changes if
    -- it is not.
    pub apply-FeedHolds :
        (feed : PrimaryFeed) (q : Resting) (ev : Event) (trade : Trade)
        → FeedHolds feed q
        → (is_own locate symbol ev ≡ true
            → (ev.stock_locate ≡ locate) × IsFit (kind ev) ev q × (length q < capacity))
        → (feed' : PrimaryFeed) × (apply tiers max_levels capacity hash feed ev trade ≡ (
            if is_own locate symbol ev
            then some (feed', some locate, event_trade (kind ev) ev trade q)
            else some (feed', none, trade)))
          × FeedHolds feed' (feed_orders max_levels base locate symbol ev q)
          × (feed'.count
              ≡ (if is_own locate symbol ev then (feed.count + 1) % 2 ^ 64 else feed.count))
    apply-FeedHolds feed q ev trade h fit = elim (Bool-cases (is_own locate symbol ev)) [
      | inl own ↦
          let (here, right, few) = fit own in
          let (feed', run, done, counted) =
            apply_to-FeedHolds feed feed.engine h.book q ev trade h.subscribed here h.alone h.stands
              few right in
          (feed', rw own (apply-own feed q ev trade h own here ∙ run), rw own done, rw own counted)
      | inr other ↦
          (feed, rw other (apply-foreign feed q ev trade h other), rw other h, rw other refl)
    ]

    -- A feed with one book, which stands for the resting orders of its symbol, and any list of
    -- events, of which those of the symbol are as the exchange sends them, each by the letter that
    -- ITCH gives its kind, and rest fewer orders than the table has slots: the feed applies them
    -- all, the book then stands for the orders after the events of the symbol, the others change
    -- nothing, and count has gone up by the symbol's events.
    pub replay-FeedHolds :
        (feed : PrimaryFeed) (q : Resting) (evs : List Event)
        → FeedHolds feed q
        → IsFitStream max_levels capacity base locate symbol evs q
        → (feed' : PrimaryFeed) × (replay tiers max_levels capacity hash feed evs ≡ some feed')
          × FeedHolds feed' (stream_orders max_levels base locate symbol evs q)
          × (feed'.count % 2 ^ 64 ≡ (feed.count + own_count locate symbol evs) % 2 ^ 64)
    replay-FeedHolds feed q [] h fit = (feed, refl, h, ap (λ x. x % 2 ^ 64) (omega arith))
    replay-FeedHolds feed q (ev ∷ evs) h fit =
        let (one, run, holds, counted) = apply-FeedHolds feed q ev no_trade h fit.0 in
        let (feed', runs, done, total) = replay-FeedHolds one _ evs holds fit.1 in
        (
          feed',
          elim (Bool-cases (is_own locate symbol ev)) [
            | inl own ↦ rw (run, own) runs
            | inr other ↦ rw (run, other) runs
          ],
          done,
          total ∙ counted_step one.count feed.count (own_count locate symbol evs) _ counted,
        )
